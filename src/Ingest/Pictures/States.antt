-- ===== src/Ingest/Pictures/States.antt =====
-- sampleSummary of manager/ingest/mapping.py: the state of the picture.
use sipmedia_gw.Prelude.{
  ◌++◌, ◌==◌, ◌||◌, Bool, true, false, Bool-cases, inl, inr, ◌≤◌, ◌≡◌, refl, ap, ◌∙◌, String, not,
  Option, none, some, List, [], ◌∷◌, length, any, eqb, if◌then◌else◌, arith,
}
use sipmedia_gw.Ingest.Values.{ℤ, Json, Fields, Floats, get, obj, int_of}
use sipmedia_gw.Ingest.Pictures.{
  Interval, is_presenting, or_nought, elapsed, between, and_rate, rate, part, Numbers, Summary,
  points, frame_rates, rates, count_low, state_of, or_state, one_way, with_points, rated,
  sample_summary,
}

module _ {F : Type 0} (io : Floats) (num : Numbers F) where
  count_low-le : (xs : List F) → count_low io num xs ≤ length xs
  unfolding count_low
  count_low-le [] = omega arith
  count_low-le (x ∷ xs) = ground (arith, count_low-le xs)

  count_low-none : (xs : List F) → eqb (count_low io num xs) 0 ≡ not (any num.is_low xs)
  unfolding count_low any
  count_low-none [] = refl
  count_low-none (x ∷ xs) = ground (arith, count_low-none xs)

  count_low-all :
      (xs : List F) → eqb (count_low io num xs) (length xs) ≡ not (any (λ x. not (num.is_low x)) xs)
  unfolding count_low any
  count_low-all [] = refl
  count_low-all (x ∷ xs) = ground (arith, count_low-all xs, count_low-le xs)

  -- The state that the rates of the received picture say: none where nothing was measured.
  unfoldable pub described : List F → Option String
  described [] = none
  described (x ∷ xs) = some (
      if not (any num.is_low (x ∷ xs))
      then "ok"
      else if not (any (λ r. not (num.is_low r)) (x ∷ xs))
      then "no_picture"
      else "stalled")

  unfoldable pub or_described : Option String → List F → Option String
  unfolding described
  or_described none measured = described measured
  or_described (some state) measured = some state

  state_of-described :
      (x : F) (xs : List F)
      → some (state_of io num (count_low io num (x ∷ xs)) (length (x ∷ xs))) ≡ described (x ∷ xs)
  unfolding described
  state_of-described x xs =
      ap
        (λ b. some (
          if b
          then "ok"
          else if eqb (count_low io num (x ∷ xs)) (length (x ∷ xs))
          then "no_picture"
          else "stalled"))
        (count_low-none (x ∷ xs))
      ∙ ap
          (λ b.
            some (
              if not (any num.is_low (x ∷ xs))
              then "ok"
              else if b
              then "no_picture"
              else "stalled"))
          (count_low-all (x ∷ xs))

  nothing_measured : (state : Option String) → state ≡ or_described state []
  unfolding or_described described
  nothing_measured none = refl
  nothing_measured (some s) = refl

  something_measured :
      (state : Option String) (x : F) (xs : List F)
      → or_state io num state (state_of io num (count_low io num (x ∷ xs)) (length (x ∷ xs)))
        ≡ or_described state (x ∷ xs)
  unfolding or_described
  something_measured none x xs = state_of-described x xs
  something_measured (some s) x xs = refl

  rated-described :
      (summary : Summary F) (measured : List F)
      → (rated io num summary measured).video_state ≡ or_described summary.video_state measured
  rated-described summary [] = nothing_measured summary.video_state
  rated-described summary (x ∷ xs) = something_measured summary.video_state x xs

  with_points-described :
      (direction : Option String) (ps : List Fields)
      → (with_points io num direction ps).video_state
        ≡ or_described (one_way io num direction) (rates io num (frame_rates io num ps))
  unfolding frame_rates rates
  with_points-described direction [] = nothing_measured (one_way io num direction)
  with_points-described direction (p ∷ ps) =
      rated-described _ (rates io num (frame_rates io num (p ∷ ps)))

  -- The clock and the counter of the received frames of a point.
  unfoldable pub time_of : Fields → F
  unfolding get
  time_of p = elim (num.float (get "seconds" p)) [ none ↦ num.nought | some t ↦ t ]

  unfoldable pub received_of : Fields → Option ℤ
  unfolding get int_of
  received_of p = int_of io (get "rxFrames" (obj (get "main" (obj (get "video" p)))))

  abbrev pub quotient : Option ℤ → Option ℤ → F → List F
  quotient none stop seconds = []
  quotient (some start) none seconds = []
  quotient (some start) (some stop) seconds = num.frames start stop seconds ∷ []

  -- The rates of the received picture, over each two points that follow one another with some time
  -- between and a counter in both.
  unfoldable pub received : List Fields → List F
  unfolding time_of received_of
  received [] = []
  received (p ∷ []) = []
  received (p ∷ q ∷ later) =
      let rest = received (q ∷ later) in
      let seconds = num.minus (time_of q) (time_of p) in
      if num.is_positive seconds
      then quotient (received_of p) (received_of q) seconds ++ rest
      else rest

  abbrev pub is_one_way : Option String → Bool
  is_one_way none = false
  is_one_way (some d) = (d == "sendonly") || (d == "recvonly")

  -- What a state should be, from whether the picture goes one way and the rates.
  unfoldable pub state_for : Bool → List F → Option String
  unfolding described
  state_for true measured = some "oneway"
  state_for false measured = described measured

  and_rate-quotient :
      (start stop : Option ℤ) (seconds : F) (rest : List F)
      → and_rate io num (between io num start stop seconds) rest
        ≡ quotient start stop seconds ++ rest
  and_rate-quotient none stop seconds rest = refl
  and_rate-quotient (some start) none seconds rest = refl
  and_rate-quotient (some start) (some stop) seconds rest = refl

  or_nought-time : (o : Option F) → or_nought io num o ≡ elim o [ none ↦ num.nought | some t ↦ t ]
  or_nought-time none = refl
  or_nought-time (some t) = refl

  elapsed-time : (p q : Fields) → elapsed io num p q ≡ num.minus (time_of q) (time_of p)
  unfolding time_of
  elapsed-time p q =
      ap (λ t. num.minus t (or_nought io num (num.float (get "seconds" p))))
        (or_nought-time (num.float (get "seconds" q)))
      ∙ ap (λ t. num.minus (time_of q) t) (or_nought-time (num.float (get "seconds" p)))

  rates_step :
      (b : Bool) (x : Interval F) (rest : List (Interval F)) (front : List F)
      → and_rate io num x.rx (rates io num rest) ≡ front ++ rates io num rest
      → rates io num (if b then x ∷ rest else rest)
        ≡ (if b then front ++ rates io num rest else rates io num rest)
  unfolding rates
  rates_step true x rest front e = e
  rates_step false x rest front e = refl

  rates-received : (ps : List Fields) → rates io num (frame_rates io num ps) ≡ received ps
  unfolding frame_rates rates rate part received received_of
  rates-received [] = refl
  rates-received (p ∷ []) = refl
  rates-received (p ∷ q ∷ later) =
      let seconds = elapsed io num p q in
      let rest = frame_rates io num (q ∷ later) in
      rates_step (num.is_positive seconds)
        (record {
          at = num.float (get "seconds" q);
          seconds = seconds;
          rx = rate io num "rxFrames" p q seconds;
          tx = rate io num "txFrames" p q seconds;
          presentation = is_presenting io num p q;
        })
        rest (quotient (received_of p) (received_of q) seconds)
        (and_rate-quotient (received_of p) (received_of q) seconds (rates io num rest))
      ∙ ap
          (λ t.
            if num.is_positive t
            then quotient (received_of p) (received_of q) t ++ rates io num rest
            else rates io num rest)
          (elapsed-time p q)
      ∙ ap
          (λ r.
            if num.is_positive (num.minus (time_of q) (time_of p))
            then quotient (received_of p) (received_of q) (num.minus (time_of q) (time_of p)) ++ r
            else r)
          (rates-received (q ∷ later))

  one_way-state :
      (direction : Option String) (measured : List F)
      → or_described (one_way io num direction) measured ≡ state_for (is_one_way direction) measured
  unfolding one_way or_described state_for
  one_way-state none measured = refl
  one_way-state (some d) measured = elim (Bool-cases ((d == "sendonly") || (d == "recvonly"))) [
    | inl e ↦ rw e refl
    | inr e ↦ rw e refl
  ]

  -- Samples that can be read have a summary. Its state is "oneway" for a direction that is, even if
  -- nothing was measured; else it is none where the points yield no rate of the received picture,
  -- "ok" where no rate is low, "no_picture" where all are, and "stalled" where some are, in whatever
  -- order.
  pub sample_summary-described :
      (samples : Json) (direction : Option String) (ps : List Fields)
      → points io num samples ≡ some ps
      → (summary : Summary F) × (sample_summary io num samples direction ≡ some summary)
        × (summary.video_state ≡ state_for (is_one_way direction) (received ps))
  unfolding sample_summary
  sample_summary-described samples direction ps read = (
    with_points io num direction ps,
    rw (sample_summary, read) refl,
    with_points-described direction ps
        ∙ one_way-state direction (rates io num (frame_rates io num ps))
        ∙ ap (state_for (is_one_way direction)) (rates-received ps),
  )
