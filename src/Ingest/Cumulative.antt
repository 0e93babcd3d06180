-- ===== src/Ingest/Cumulative.antt =====
-- looksCumulative of manager/ingest/mapping.py: each reading beside the one two entries before it.
use sipmedia_gw.Prelude.{
  ℕ, ◌≡◌, refl, ◌∙◌, ap, String, Option, none, some, leb, Bool, true, false, not, ◌&&◌, ◌||◌, List,
  [], ◌∷◌, length, ltb, arith, eqb, ◌%◌, if◌then◌else◌,
}
use sipmedia_gw.Ingest.Values.{ℤ, pos, negsuc, less, Fields, Floats, get, obj, int_of}
use sipmedia_gw.Ingest.{
  or_zero, counter, counters, decreases, every_other, tail, never_decreases, looks_cumulative,
}

module _ (io : Floats) (spelled : ℤ → String) where
  -- The comparisons of the code, entry by entry instead of series by series.
  unfoldable stays : List Fields → Bool
  stays [] = true
  stays (x ∷ []) = true
  stays (x ∷ y ∷ []) = true
  stays (x ∷ y ∷ z ∷ rest) =
      not (decreases io spelled (counters io spelled x) (counters io spelled z))
      && stays (y ∷ z ∷ rest)

  and_rotate : (a b c : Bool) → (a && b) && c ≡ a && (c && b)
  and_rotate false b c = refl
  and_rotate true false false = refl
  and_rotate true false true = refl
  and_rotate true true false = refl
  and_rotate true true true = refl

  rotated : (a b c g : Bool) → c && b ≡ g → (a && b) && c ≡ a && g
  rotated a b c g same = and_rotate a b c ∙ ap (λ d. a && d) same

  never_decreases-every_other :
      (xs : List Fields)
      → never_decreases io spelled (every_other io spelled xs)
          && never_decreases io spelled (every_other io spelled (tail io spelled xs))
        ≡ stays xs
  unfolding never_decreases every_other stays
  never_decreases-every_other [] = refl
  never_decreases-every_other (x ∷ []) = refl
  never_decreases-every_other (x ∷ y ∷ []) = refl
  never_decreases-every_other (x ∷ y ∷ z ∷ []) = and_rotate _ true true
  never_decreases-every_other (x ∷ y ∷ z ∷ w ∷ rest) =
      rotated (not (decreases io spelled (counters io spelled x) (counters io spelled z)))
        (never_decreases io spelled (every_other io spelled (z ∷ w ∷ rest)))
        (never_decreases io spelled (every_other io spelled (y ∷ z ∷ w ∷ rest)))
        (stays (y ∷ z ∷ w ∷ rest)) (never_decreases-every_other (y ∷ z ∷ w ∷ rest))

  odd_even : (n : ℕ) → eqb (n % 2) 1 ≡ not (eqb (n % 2) 0)
  odd_even n = ground arith

  guarded :
      (a b b' c c' : Bool)
      → b ≡ not b'
      → c ≡ c'
      → (if a || b then false else c) ≡ not a && (b' && c')
  guarded true b b' c c' odd same = refl
  guarded false b true c c' odd same = ap (λ d. if d then false else c) odd ∙ same
  guarded false b false c c' odd same = ap (λ d. if d then false else c) odd

  -- The order of the whole numbers.
  unfoldable pub at_most : ℤ → ℤ → Bool
  at_most (pos a) (pos b) = leb a b
  at_most (pos a) (negsuc b) = false
  at_most (negsuc a) (pos b) = true
  at_most (negsuc a) (negsuc b) = leb b a

  -- A counter of an entry, 0 where it cannot be read.
  unfoldable pub reading : String → String → Fields → ℤ
  unfolding int_of get
  reading direction key entry = elim (int_of io (get key (obj (get direction entry)))) [
    | none ↦ pos 0
    | some z ↦ z
  ]

  -- Each of the four counters of the later entry is at least that of the earlier one.
  unfoldable pub is_later : Fields → Fields → Bool
  unfolding at_most reading
  is_later before after =
      at_most (reading "rx" "packets" before) (reading "rx" "packets" after)
      && (at_most (reading "rx" "packetReports" before) (reading "rx" "packetReports" after)
          && (at_most (reading "tx" "packets" before) (reading "tx" "packets" after)
              && at_most (reading "tx" "packetReports" before)
                  (reading "tx" "packetReports" after)))

  -- Each entry may be a later reading of the one two before it.
  unfoldable pub grows : List Fields → Bool
  unfolding is_later
  grows [] = true
  grows (x ∷ []) = true
  grows (x ∷ y ∷ []) = true
  grows (x ∷ y ∷ z ∷ rest) = is_later x z && grows (y ∷ z ∷ rest)

  less-at_most : (a b : ℤ) → less b a ≡ not (at_most a b)
  unfolding less at_most
  less-at_most (pos a) (pos b) = ground arith
  less-at_most (pos a) (negsuc b) = refl
  less-at_most (negsuc a) (pos b) = refl
  less-at_most (negsuc a) (negsuc b) = ground arith

  read_or_zero : (o : Option ℤ) → or_zero io spelled o ≡ elim o [ none ↦ pos 0 | some z ↦ z ]
  read_or_zero none = refl
  read_or_zero (some z) = refl

  counter-reading :
      (entry : Fields) (direction key : String)
      → counter io spelled entry direction key ≡ reading direction key entry
  unfolding reading
  counter-reading entry direction key =
      read_or_zero (int_of io (get key (obj (get direction entry))))

  not_or : (p rest a b : Bool) → p ≡ not a → not rest ≡ b → not (p || rest) ≡ a && b
  not_or p rest false b e f = ap (λ z. not (z || rest)) e
  not_or p rest true b e f = ap (λ z. not (z || rest)) e ∙ f

  lesser :
      (x z : Fields) (direction key : String)
      → less (counter io spelled z direction key) (counter io spelled x direction key)
        ≡ not (at_most (reading direction key x) (reading direction key z))
  lesser x z direction key =
      ap (λ a. less a (counter io spelled x direction key)) (counter-reading z direction key)
      ∙ ap (λ a. less (reading direction key z) a) (counter-reading x direction key)
      ∙ less-at_most (reading direction key x) (reading direction key z)

  last_one : (p a : Bool) → p ≡ not a → not (p || false) ≡ a
  last_one p true e = ap (λ z. not (z || false)) e
  last_one p false e = ap (λ z. not (z || false)) e

  decreases-is_later :
      (x z : Fields)
      → not (decreases io spelled (counters io spelled x) (counters io spelled z)) ≡ is_later x z
  unfolding decreases counters is_later
  decreases-is_later x z =
      not_or _ _ (at_most (reading "rx" "packets" x) (reading "rx" "packets" z)) _
        (lesser x z "rx" "packets")
        (not_or _ _ (at_most (reading "rx" "packetReports" x) (reading "rx" "packetReports" z)) _
          (lesser x z "rx" "packetReports")
          (not_or _ _ (at_most (reading "tx" "packets" x) (reading "tx" "packets" z)) _
            (lesser x z "tx" "packets")
            (last_one _ (at_most (reading "tx" "packetReports" x) (reading "tx" "packetReports" z))
              (lesser x z "tx" "packetReports"))))

  stays-grows : (video : List Fields) → stays video ≡ grows video
  unfolding stays grows
  stays-grows [] = refl
  stays-grows (x ∷ []) = refl
  stays-grows (x ∷ y ∷ []) = refl
  stays-grows (x ∷ y ∷ z ∷ rest) =
      ap (λ b. b && stays (y ∷ z ∷ rest)) (decreases-is_later x z)
      ∙ ap (λ b. is_later x z && b) (stays-grows (y ∷ z ∷ rest))

  -- looksCumulative says yes exactly for a list with an even number of entries, four at least, of
  -- which none has a smaller counter, of packets or of packet reports, received or sent, than the
  -- entry two before it.
  pub looks_cumulative-grows :
      (video : List Fields)
      → looks_cumulative io spelled video
        ≡ not (ltb (length video) 4) && (eqb (length video % 2) 0 && grows video)
  unfolding looks_cumulative
  looks_cumulative-grows video =
      guarded _ _ _ _ _ (odd_even (length video))
        (never_decreases-every_other video ∙ stays-grows video)
