-- ===== src/Scaler/Slots.antt =====
-- deploy/scaler/src/Scaler.py: the choice of a time slot.
use sipmedia_gw.Prelude.{
  ℕ, ◌+◌, ◌-◌, ◌≤◌, ◌≡◌, ◌∙◌, sym, subst, arith, String, true, false, Option, none, some, List, [],
  ◌∷◌, All, leb, if◌then◌else◌, Bool-cases, inl, inr, if_true, if_false,
}
use sipmedia_gw.Text.{text_gt}
use sipmedia_gw.Scaler.{Slot}

-- The line of a day: the slots by the text of their start.
abbrev pub Line : Type 0
Line = List (String × Slot)

near : (a b t : ℕ) → a ≤ t → b ≤ t → leb ((a - t) + (t - a)) ((b - t) + (t - b)) ≡ true → b ≤ a
near a b t l m h = ground arith

far : (a b t : ℕ) → a ≤ t → b ≤ t → leb ((a - t) + (t - a)) ((b - t) + (t - b)) ≡ false → a ≤ b
far a b t l m h = ground arith

-- `seconds` is getSeconds, which strptime reads.
module _ (seconds : String → ℕ) (time : String) where
  abbrev pub apart : String → ℕ
  apart start = (seconds start - seconds time) + (seconds time - seconds start)

  -- The nearer of two starts, the first of two as near.
  unfoldable pub nearer : String × Slot → Option (String × Slot) → String × Slot
  nearer x none = x
  nearer x (some y) = if leb (apart x.0) (apart y.0) then x else y

  -- The slot that `min` picks among the starts that do not come after the time, by their texts;
  -- `none` where there is none, at which `min` raises.
  unfoldable pub choose : Line → Option (String × Slot)
  unfolding nearer text_gt
  choose [] = none
  choose (x ∷ line) =
      let rest = choose line in if text_gt x.0 time then rest else some (nearer x rest)

  -- The starts that are compared come as late as their texts say.
  abbrev pub Read : String × Slot → Type 0
  Read x = text_gt x.0 time ≡ false → seconds x.0 ≤ seconds time

  -- What is chosen from a line.
  abbrev pub Latest : Line → Option (String × Slot) → Type 0
  Latest line none = All (λ x. text_gt x.0 time ≡ true) line
  Latest line (some y) =
      (text_gt y.0 time ≡ false)
      × (seconds y.0 ≤ seconds time)
      × All (λ x. text_gt x.0 time ≡ false → seconds x.0 ≤ seconds y.0) line

  not_later :
      (line : Line) (a b : ℕ)
      → a ≤ b
      → All (λ x. text_gt x.0 time ≡ false → seconds x.0 ≤ a) line
      → All (λ x. text_gt x.0 time ≡ false → seconds x.0 ≤ b) line
  not_later [] a b l h = _
  not_later (x ∷ line) a b l h = (λ e. omega (arith, l, h.0 e), not_later line a b l h.1)

  none_started :
      (line : Line) (b : ℕ)
      → All (λ x. text_gt x.0 time ≡ true) line
      → All (λ x. text_gt x.0 time ≡ false → seconds x.0 ≤ b) line
  none_started [] b h = _
  none_started (x ∷ line) b h = (λ e. cc (sym h.0 ∙ e), none_started line b h.1)

  nearer-Latest :
      (x : String × Slot) (line : Line) (o : Option (String × Slot))
      → text_gt x.0 time ≡ false
      → seconds x.0 ≤ seconds time
      → Latest line o
      → Latest (x ∷ line) (some (nearer x o))
  unfolding nearer
  nearer-Latest x line none early l h =
      (early, l, ((λ e. omega arith), none_started line (seconds x.0) h))
  nearer-Latest x line (some y) early l h = elim (Bool-cases (leb (apart x.0) (apart y.0))) [
    | inl e ↦
        subst (λ z. Latest (x ∷ line) (some z)) (sym (if_true _ _ _ e))
          (
            early,
            l,
            (
              (λ f. omega arith),
              not_later line (seconds y.0) (seconds x.0)
                  (near (seconds x.0) (seconds y.0) (seconds time) l h.1 e) h.2,
            ),
          )
    | inr e ↦
        subst (λ z. Latest (x ∷ line) (some z)) (sym (if_false _ _ _ e))
          (h.0, h.1, ((λ f. far (seconds x.0) (seconds y.0) (seconds time) l h.1 e), h.2))
  ]

  skip_first :
      (x : String × Slot) (line : Line) (o : Option (String × Slot))
      → text_gt x.0 time ≡ true
      → Latest line o
      → Latest (x ∷ line) o
  skip_first x line none e h = (e, h)
  skip_first x line (some y) e h = (h.0, h.1, ((λ f. cc (sym e ∙ f)), h.2))

  -- Where the starts that do not come after the time by their texts do not by the clock either, the
  -- slot that is chosen has started and no slot that has started does so later; none is chosen only
  -- if none has started.
  pub choose-Latest : (line : Line) → All Read line → Latest line (choose line)
  unfolding choose
  choose-Latest [] reads = _
  choose-Latest (x ∷ line) reads = elim (Bool-cases (text_gt x.0 time)) [
    | inl e ↦
        subst (Latest (x ∷ line)) (sym (if_true _ _ _ e))
          (skip_first x line (choose line) e (choose-Latest line reads.1))
    | inr e ↦
        subst (Latest (x ∷ line)) (sym (if_false _ _ _ e))
          (nearer-Latest x line (choose line) e (reads.0 e) (choose-Latest line reads.1))
  ]
