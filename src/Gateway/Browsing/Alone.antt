-- ===== src/Gateway/Browsing/Alone.antt =====
-- src/browsing.py: when monitorSingleParticipant hangs up.
use sipmedia_gw.Prelude.{
  ℕ, ◌+◌, ◌≤◌, ◌≡◌, refl, sym, ◌∙◌, ap, ◌⊎◌, inl, inr, Bool, true, false, Option, none, some, List,
  [], ◌∷◌, leb, Bool-cases, if_true, if_false, leb→le, arith, if◌then◌else◌,
}
use sipmedia_gw.Gateway.Browsing.{
  Round, is_alone, Watch, since, hung_up, ended, offered, single, check_round, monitor_single,
}

-- From here on one participant is read, at each round, until the threshold has passed since a time.
abbrev pub Lasts : ℕ → ℕ → List Round → Type 0
Lasts threshold start [] = ⊥
Lasts threshold start (round ∷ rounds) =
    (round.offers_count ≡ some true)
    × (is_alone round.participant_num ≡ true)
    × ((start + threshold ≤ round.now) ⊎ Lasts threshold start rounds)

-- Some round begins such a run, and the page offers the count up to there.
abbrev pub Alone : ℕ → List Round → Type 0
Alone threshold [] = ⊥
Alone threshold (round ∷ rounds) =
    (round.offers_count ≡ some true)
    × (((is_alone round.participant_num ≡ true) × Lasts threshold round.now rounds)
        ⊎ Alone threshold rounds)

-- The times do not go back.
abbrev pub Forward : ℕ → List Round → Type 0
Forward start [] = Unit
Forward start (round ∷ rounds) = (start ≤ round.now) × Forward round.now rounds

follow : ℕ → List Round → Watch → Watch
unfolding monitor_single
follow threshold rounds (since next) = monitor_single threshold next rounds
follow threshold rounds hung_up = hung_up
follow threshold rounds ended = ended

monitor_single-follow :
    (threshold : ℕ) (start : Option ℕ) (round : Round) (rounds : List Round)
    → monitor_single threshold start (round ∷ rounds)
      ≡ follow threshold rounds (check_round threshold start round)
unfolding monitor_single follow
monitor_single-follow threshold start round rounds = refl

-- What a round must have read where the thread hangs up.
read_round :
    (threshold : ℕ) (rounds : List Round) (offer : Option Bool) (alone : Bool) (next : Watch)
    → follow threshold rounds (offered offer (if alone then next else since none)) ≡ hung_up
    → (offer ≡ some true)
      × (((alone ≡ true) × (follow threshold rounds next ≡ hung_up))
          ⊎ (monitor_single threshold none rounds ≡ hung_up))
unfolding follow
read_round threshold rounds none alone next hangs = cc
read_round threshold rounds (some false) alone next hangs = cc
read_round threshold rounds (some true) true next hangs = (refl, inl (refl, hangs))
read_round threshold rounds (some true) false next hangs = (refl, inr hangs)

-- A run that has begun, or one that begins later.
abbrev Reason : ℕ → Option ℕ → List Round → Type 0
Reason threshold none rounds = Alone threshold rounds
Reason threshold (some start) rounds = Lasts threshold start rounds ⊎ Alone threshold rounds

hung_up-Reason :
    (threshold : ℕ) (start : Option ℕ) (rounds : List Round)
    → monitor_single threshold start rounds ≡ hung_up
    → Reason threshold start rounds
unfolding monitor_single check_round follow
hung_up-Reason threshold none [] hangs = cc
hung_up-Reason threshold (some start) [] hangs = cc
hung_up-Reason threshold none (round ∷ rounds) hangs =
    let (offers, found) =
      read_round threshold rounds round.offers_count (is_alone round.participant_num)
        (since (some round.now)) hangs in
    elim found [
      | inl (alone, h) ↦ elim (hung_up-Reason threshold (some round.now) rounds h) [
        | inl lasts ↦ (offers, inl (alone, lasts))
        | inr later ↦ (offers, inr later)
      ]
      | inr h ↦ (offers, inr (hung_up-Reason threshold none rounds h))
    ]
hung_up-Reason threshold (some start) (round ∷ rounds) hangs =
    let (offers, found) =
      read_round threshold rounds round.offers_count (is_alone round.participant_num)
        (single threshold (some start) round.now) hangs in
    elim found [
      | inl (alone, h) ↦ elim (Bool-cases (leb (start + threshold) round.now)) [
        | inl passed ↦ inl (offers, alone, inl (leb→le (start + threshold) round.now passed))
        | inr early ↦
            elim (hung_up-Reason threshold (some start) rounds (
              ap (follow threshold rounds) (
                sym
                  (if_false (leb (start + threshold) round.now) hung_up (since (some start)) early))
              ∙ h)) [
                | inl lasts ↦ inl (offers, alone, inr lasts)
                | inr later ↦ inr (offers, inr later)
              ]
      ]
      | inr h ↦ inr (offers, inr (hung_up-Reason threshold none rounds h))
    ]

-- The thread hangs up only where, at each of the rounds that end with the hang-up, a single
-- participant was read, from a round on that is as long ago as the threshold, and where the page has
-- offered the count at every round.
pub hung_up-Alone :
    (threshold : ℕ) (rounds : List Round)
    → monitor_single threshold none rounds ≡ hung_up
    → Alone threshold rounds
hung_up-Alone threshold rounds hangs = hung_up-Reason threshold none rounds hangs

single_round :
    (threshold : ℕ) (start : Option ℕ) (round : Round) (rounds : List Round)
    → round.offers_count ≡ some true
    → is_alone round.participant_num ≡ true
    → monitor_single threshold start (round ∷ rounds)
      ≡ follow threshold rounds (single threshold start round.now)
unfolding monitor_single check_round follow
single_round threshold start round rounds offers alone =
    ap
      (λ o. follow threshold rounds (
        offered o (
          if is_alone round.participant_num then single threshold start round.now else since none)))
      offers
    ∙ ap (λ b. follow threshold rounds (if b then single threshold start round.now else since none))
        alone

other_round :
    (threshold : ℕ) (start : Option ℕ) (round : Round) (rounds : List Round)
    → round.offers_count ≡ some true
    → is_alone round.participant_num ≡ false
    → monitor_single threshold start (round ∷ rounds) ≡ monitor_single threshold none rounds
unfolding monitor_single check_round follow
other_round threshold start round rounds offers others =
    ap
      (λ o. follow threshold rounds (
        offered o (
          if is_alone round.participant_num then single threshold start round.now else since none)))
      offers
    ∙ ap (λ b. follow threshold rounds (if b then single threshold start round.now else since none))
        others

-- With a run that has begun, a round hangs up or goes on.
begun :
    (threshold start now : ℕ) (rounds : List Round)
    → (leb (start + threshold) now ≡ false → monitor_single threshold (some start) rounds ≡ hung_up)
    → follow threshold rounds (single threshold (some start) now) ≡ hung_up
unfolding follow
begun threshold start now rounds goes_on = elim (Bool-cases (leb (start + threshold) now)) [
  | inl passed ↦
      ap (follow threshold rounds)
        (if_true (leb (start + threshold) now) hung_up (since (some start)) passed)
  | inr early ↦
      ap (follow threshold rounds)
        (if_false (leb (start + threshold) now) hung_up (since (some start)) early)
      ∙ goes_on early
]

Lasts-earlier :
    (threshold start now : ℕ) (rounds : List Round)
    → start ≤ now
    → Lasts threshold now rounds
    → Lasts threshold start rounds
Lasts-earlier threshold start now [] before lasts = lasts
Lasts-earlier threshold start now (round ∷ rounds) before (offers, alone, found) = elim found [
  | inl passed ↦ (offers, alone, inl (omega arith))
  | inr lasts ↦ (offers, alone, inr (Lasts-earlier threshold start now rounds before lasts))
]

Forward-earlier :
    (start now : ℕ) (rounds : List Round) → start ≤ now → Forward now rounds → Forward start rounds
Forward-earlier start now [] before forward = _
Forward-earlier start now (round ∷ rounds) before (first, rest) = (omega arith, rest)

abbrev or_zero : Option ℕ → ℕ
or_zero none = 0
or_zero (some start) = start

Reason-hung_up :
    (threshold : ℕ) (start : Option ℕ) (rounds : List Round)
    → Forward (or_zero start) rounds
    → Reason threshold start rounds
    → monitor_single threshold start rounds ≡ hung_up
unfolding follow
Reason-hung_up threshold none [] forward reason = elim reason [ ]
Reason-hung_up threshold (some start) [] forward reason = elim reason [
  | inl x ↦ elim x [ ]
  | inr x ↦ elim x [ ]
]
Reason-hung_up threshold none (round ∷ rounds) (first, rest) (offers, found) = elim found [
  | inl (alone, lasts) ↦
      single_round threshold none round rounds offers alone
      ∙ Reason-hung_up threshold (some round.now) rounds rest (inl lasts)
  | inr later ↦ elim (Bool-cases (is_alone round.participant_num)) [
    | inl alone ↦
        single_round threshold none round rounds offers alone
        ∙ Reason-hung_up threshold (some round.now) rounds rest (inr later)
    | inr others ↦
        other_round threshold none round rounds offers others
        ∙ Reason-hung_up threshold none rounds
            (Forward-earlier 0 round.now rounds (omega arith) rest) later
  ]
]
Reason-hung_up threshold (some start) (round ∷ rounds) (first, rest) (inl (offers, alone, found)) =
    single_round threshold (some start) round rounds offers alone
    ∙ begun threshold start round.now rounds (λ early. elim found [
      | inl passed ↦ ground arith
      | inr lasts ↦
          Reason-hung_up threshold (some start) rounds
            (Forward-earlier start round.now rounds first rest) (inl lasts)
    ])
Reason-hung_up threshold (some start) (round ∷ rounds) (first, rest) (inr (offers, found)) =
    elim found [
      | inl (alone, lasts) ↦
          single_round threshold (some start) round rounds offers alone
          ∙ begun threshold start round.now rounds (λ early.
            Reason-hung_up threshold (some start) rounds
              (Forward-earlier start round.now rounds first rest)
              (inl (Lasts-earlier threshold start round.now rounds first lasts)))
      | inr later ↦ elim (Bool-cases (is_alone round.participant_num)) [
        | inl alone ↦
            single_round threshold (some start) round rounds offers alone
            ∙ begun threshold start round.now rounds (λ early.
              Reason-hung_up threshold (some start) rounds
                (Forward-earlier start round.now rounds first rest) (inr later))
        | inr others ↦
            other_round threshold (some start) round rounds offers others
            ∙ Reason-hung_up threshold none rounds
                (Forward-earlier 0 round.now rounds (omega arith) rest) later
      ]
    ]

-- Where the times of the rounds do not go back, a run of rounds that read a single participant, as
-- long as the threshold, ends in the hang-up, if the page has offered the count at every round so far.
pub monitor_single-Alone :
    (threshold : ℕ) (rounds : List Round)
    → Forward 0 rounds
    → Alone threshold rounds
    → monitor_single threshold none rounds ≡ hung_up
monitor_single-Alone threshold rounds forward alone =
    Reason-hung_up threshold none rounds forward alone
