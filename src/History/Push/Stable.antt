-- ===== src/History/Push/Stable.antt =====
-- src/logParse.py: how the reading of the history ends.
use sipmedia_gw.Prelude.{
  ℕ, suc, ◌≡◌, refl, ◌∙◌, ap, arith, Bool, true, false, ◌&&◌, Option, none, some, List, [], ◌∷◌,
  ◌++◌, length, eqb_refl, leb, if◌then◌else◌, if_true, if_false,
}
use sipmedia_gw.History.Push.{last_line, same_last, is_same_sig, poll, read_stable}

two_le : (n : ℕ) → leb 2 (suc (suc n)) ≡ true
two_le n = ground arith

module _ {ℓ} {A : Type ℓ} (same : A → A → Bool) (same_refl : (x : A) → same x x ≡ true) where
  same_last_refl : (o : Option A) → same_last same o o ≡ true
  same_last_refl none = refl
  same_last_refl (some x) = same_refl x

  same_sig_refl : (xs : List A) → is_same_sig same xs (some xs) ≡ true
  unfolding is_same_sig
  same_sig_refl xs =
      ap (λ b. b && same_last same (last_line same xs) (last_line same xs)) (eqb_refl (length xs))
      ∙ same_last_refl (last_line same xs)

  ends_at :
      (b : Bool) (xs : List A) (rest : Option (List A))
      → rest ≡ some xs
      → (if b then some xs else rest) ≡ some xs
  ends_at true xs rest e = refl
  ends_at false xs rest e = e

  sig_again : (n : ℕ) (xs : List A) → (if is_same_sig same xs (some xs) then suc n else 0) ≡ suc n
  sig_again n xs = if_true _ _ _ (same_sig_refl xs)

  third :
      (n : ℕ) (xs : List A) (polls : List (List A))
      → poll same (suc n) (some xs) (xs ∷ polls) ≡ some xs
  unfolding poll
  third n xs polls = if_true _ _ _ (ap (leb 2) (sig_again (suc n) xs) ∙ two_le n)

  second :
      (n : ℕ) (xs : List A) (polls : List (List A))
      → poll same n (some xs) (xs ∷ xs ∷ polls) ≡ some xs
  unfolding poll
  second n xs polls =
      ends_at _ xs _
        (ap (λ m. poll same m (some xs) (xs ∷ polls)) (sig_again n xs) ∙ third n xs polls)

  -- Three polls that show the same end the reading.
  poll-quiet :
      (n : ℕ) (seen : Option (List A)) (xs : List A) (polls : List (List A))
      → poll same n seen (xs ∷ xs ∷ xs ∷ polls) ≡ some xs
  unfolding poll
  poll-quiet n seen xs polls = ends_at _ xs _ (second _ xs polls)

  -- Each poll shows something else than the one before.
  abbrev pub Growing : Option (List A) → List (List A) → Type 0
  Growing seen [] = Unit
  Growing seen (xs ∷ polls) = (is_same_sig same xs seen ≡ false) × Growing (some xs) polls

  poll-Growing :
      (n : ℕ) (seen : Option (List A)) (busy : List (List A)) (xs : List A) (polls : List (List A))
      → Growing seen busy
      → poll same n seen (busy ++ (xs ∷ xs ∷ xs ∷ polls)) ≡ some xs
  unfolding poll
  poll-Growing n seen [] xs polls h = poll-quiet n seen xs polls
  poll-Growing n seen (ys ∷ busy) xs polls h =
      if_false _ _ _ (ap (leb 2) (if_false _ _ _ h.0))
      ∙ poll-Growing (if is_same_sig same ys seen then suc n else 0) (some ys) busy xs polls h.1

  before_last :
      (seen : Option (List A)) (busy : List (List A)) (xs : List A)
      → Growing seen (busy ++ (xs ∷ []))
      → Growing seen busy
  before_last seen [] xs h = _
  before_last seen (ys ∷ busy) xs h = (h.0, before_last (some ys) busy xs h.1)

  -- Two polls that show the same do not end the reading.
  poll-pause :
      (n : ℕ) (seen : Option (List A)) (busy : List (List A)) (xs ys : List A)
      (later : List (List A)) (zs : List A) (polls : List (List A))
      → Growing seen (busy ++ (xs ∷ []))
      → Growing (some xs) (ys ∷ later)
      → poll same n seen (busy ++ (xs ∷ xs ∷ (ys ∷ later) ++ (zs ∷ zs ∷ zs ∷ polls))) ≡ some zs
  unfolding poll
  poll-pause n seen [] xs ys later zs polls h k =
      if_false _ _ _ (ap (leb 2) (if_false _ _ _ h.0))
      ∙ ap (λ m. poll same m (some xs) (xs ∷ (ys ∷ later) ++ (zs ∷ zs ∷ zs ∷ polls)))
          (if_false _ _ _ h.0)
      ∙ if_false _ _ _ (ap (leb 2) (sig_again 0 xs))
      ∙ poll-Growing (if is_same_sig same xs (some xs) then 1 else 0) (some xs) (ys ∷ later) zs
          polls k
  poll-pause n seen (ws ∷ busy) xs ys later zs polls h k =
      if_false _ _ _ (ap (leb 2) (if_false _ _ _ h.0))
      ∙ poll-pause (if is_same_sig same ws seen then suc n else 0) (some ws) busy xs ys later zs
          polls h.1 k

  -- A history that grows from each poll to the next and then rests is read as it rests, at the third
  -- poll that shows it, however many polls are left. Two such polls are not enough: where it grows
  -- again after them, from each poll to the next, it is read as it rests later.
  pub read_stable-Growing :
      (busy : List (List A)) (xs ys zs : List A) (later polls : List (List A))
      → Growing none (busy ++ (xs ∷ []))
      → Growing (some xs) (ys ∷ later)
      → (read_stable same (busy ++ (xs ∷ xs ∷ xs ∷ polls)) ≡ some xs)
        × (read_stable same (busy ++ (xs ∷ xs ∷ (ys ∷ later) ++ (zs ∷ zs ∷ zs ∷ polls))) ≡ some zs)
  unfolding read_stable
  read_stable-Growing busy xs ys zs later polls h k = (
    poll-Growing 0 none busy xs polls (before_last none busy xs h),
    poll-pause 0 none busy xs ys later zs polls h k,
  )
