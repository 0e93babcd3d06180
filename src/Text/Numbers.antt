-- ===== src/Text/Numbers.antt =====
-- str(n) and int(s): a number that is written is read back.
use Prim.Native.Char.{Char, code}
use Prim.Native.Nat.{ℕ, zero, suc, ◌+◌, ◌*◌, ◌/◌, ◌%◌, ◌<◌}
use Prim.Native.String.{String, [], ◌∷◌}
use mathlib.Core.Path.{◌≡◌, refl, sym, ap, ◌∙◌}
use mathlib.Core.Logic.{inl, inr}
use mathlib.Core.Bool.{Bool, true, false, ◌&&◌, ◌||◌}
use mathlib.Core.Option.{some}
use native.Mathlib.Omega.{arith}
use sipmedia_gw.Prelude.{leb, eqb, eqb_refl, eqb→eq, Bool-cases, if_true, if_false}
use sipmedia_gw.Text.Defs.{
  is_empty, is_space, lstrip, rstrip, strip, keep_left, has_char, before, after, append, digit,
  digits, show, parse_from, parse_nat,
}
use sipmedia_gw.Text.Laws.{append_assoc, append-nil}

at_digit :
    (P : ℕ → Type 0)
    → P 0
    → P 1
    → P 2
    → P 3
    → P 4
    → P 5
    → P 6
    → P 7
    → P 8
    → P 9
    → (r : ℕ) → r < 10
    → P r
at_digit P a b c d e f g h i j zero l = a
at_digit P a b c d e f g h i j (suc zero) l = b
at_digit P a b c d e f g h i j (suc (suc zero)) l = c
at_digit P a b c d e f g h i j (suc (suc (suc zero))) l = d
at_digit P a b c d e f g h i j (suc (suc (suc (suc zero)))) l = e
at_digit P a b c d e f g h i j (suc (suc (suc (suc (suc zero))))) l = f
at_digit P a b c d e f g h i j (suc (suc (suc (suc (suc (suc zero)))))) l = g
at_digit P a b c d e f g h i j (suc (suc (suc (suc (suc (suc (suc zero))))))) l = h
at_digit P a b c d e f g h i j (suc (suc (suc (suc (suc (suc (suc (suc zero)))))))) l = i
at_digit P a b c d e f g h i j (suc (suc (suc (suc (suc (suc (suc (suc (suc zero))))))))) l = j
at_digit P a b c d e f g h i j (suc (suc (suc (suc (suc (suc (suc (suc (suc (suc n)))))))))) l =
    absurd (omega arith)

parse-digit :
    (a r : ℕ) (t : String) → r < 10 → parse_from a (append (digit r) t) ≡ parse_from (a * 10 + r) t
unfolding parse_from append digit
parse-digit a r t h =
    at_digit (λ k. parse_from a (append (digit k) t) ≡ parse_from (a * 10 + k) t) refl refl refl
      refl refl refl refl refl refl refl r h

smaller : (n f : ℕ) → eqb (n / 10) 0 ≡ false → n < suc f → n / 10 < f
smaller n f e h = ground arith

parse-digits :
    (f n : ℕ) (t : String) → n < f → parse_from 0 (append (digits f n) t) ≡ parse_from n t
unfolding digits
parse-digits zero n t h = absurd (omega arith)
parse-digits (suc f) n t h = elim (Bool-cases (eqb (n / 10) 0)) [
  | inl e ↦
      ap (λ s. parse_from 0 (append s t)) (if_true _ _ _ e)
      ∙ parse-digit 0 n t (omega (arith, eqb→eq (n / 10) 0 e))
      ∙ ap (λ k. parse_from k t) (omega arith)
  | inr e ↦
      ap (λ s. parse_from 0 (append s t)) (if_false _ _ _ e)
      ∙ ap (parse_from 0) (append_assoc (digits f (n / 10)) (digit (n % 10)) t)
      ∙ parse-digits f (n / 10) (append (digit (n % 10)) t) (smaller n f e h)
      ∙ parse-digit (n / 10) (n % 10) t (omega arith)
      ∙ ap (λ k. parse_from k t) (omega arith)
]

neither : (a b : Bool) → (a || b) ≡ false → (a ≡ false) × (b ≡ false)
neither false b e = (refl, e)
neither true b e = cc

digit-one : (r : ℕ) → r < 10 → is_empty (digit r) ≡ false
unfolding digit
digit-one r h =
    at_digit (λ k. is_empty (digit k) ≡ false) refl refl refl refl refl refl refl refl refl refl r h

is_empty-append : (s t : String) → is_empty t ≡ false → is_empty (append s t) ≡ false
unfolding append
is_empty-append [] t h = h
is_empty-append (c ∷ s) t h = refl

is_empty-digits : (f n : ℕ) → is_empty (digits (suc f) n) ≡ false
unfolding digits
is_empty-digits f n = elim (Bool-cases (eqb (n / 10) 0)) [
  | inl e ↦ ap is_empty (if_true _ _ _ e) ∙ digit-one n (omega (arith, eqb→eq (n / 10) 0 e))
  | inr e ↦
      ap is_empty (if_false _ _ _ e)
      ∙ is_empty-append (digits f (n / 10)) (digit (n % 10)) (digit-one (n % 10) (omega arith))
]

parse_nat-from :
    (s : String) (n : ℕ) → parse_from 0 s ≡ some n → is_empty s ≡ false → parse_nat s ≡ some n
unfolding parse_nat
parse_nat-from [] n e h = cc
parse_nat-from (c ∷ s) n e h = e

-- What str wrote, int reads.
pub parse_nat-show : (n : ℕ) → parse_nat (show n) ≡ some n
unfolding show parse_from
parse_nat-show n =
    parse_nat-from (digits (suc n) n) n
      (ap (parse_from 0) (sym (append-nil (digits (suc n) n)))
        ∙ parse-digits (suc n) n [] (omega arith))
      (is_empty-digits n n)

has_char-append : (k : ℕ) (s t : String) → has_char k (append s t) ≡ (has_char k s || has_char k t)
unfolding append has_char
has_char-append k [] t = refl
has_char-append k (c ∷ s) t = ground (arith, has_char-append k s t)

digit-dash : (r : ℕ) → r < 10 → has_char 45 (digit r) ≡ false
unfolding digit has_char
digit-dash r h =
    at_digit (λ k. has_char 45 (digit k) ≡ false) refl refl refl refl refl refl refl refl refl refl
      r h

digits-dash : (f n : ℕ) → n < f → has_char 45 (digits f n) ≡ false
unfolding digits has_char
digits-dash zero n h = refl
digits-dash (suc f) n h = elim (Bool-cases (eqb (n / 10) 0)) [
  | inl e ↦ ap (has_char 45) (if_true _ _ _ e) ∙ digit-dash n (omega (arith, eqb→eq (n / 10) 0 e))
  | inr e ↦
      ap (has_char 45) (if_false _ _ _ e)
      ∙ has_char-append 45 (digits f (n / 10)) (digit (n % 10))
      ∙ ap (λ b. b || has_char 45 (digit (n % 10))) (digits-dash f (n / 10) (smaller n f e h))
      ∙ digit-dash (n % 10) (omega arith)
]

-- A number is written without "-".
pub show-dash : (n : ℕ) → has_char 45 (show n) ≡ false
unfolding show
show-dash n = digits-dash (suc n) n (omega arith)

-- A text is cut at the first of a character.
pub before-append :
    (s t : String) (k : ℕ) (c : Char)
    → code c ≡ k
    → has_char k s ≡ false
    → before k (append s (c ∷ t)) ≡ s
unfolding append before has_char
before-append [] t k c e h = if_true _ _ _ (ap (λ n. eqb n k) e ∙ eqb_refl k)
before-append (d ∷ s) t k c e h =
    let both = neither (eqb (code d) k) (has_char k s) h in
    if_false (eqb (code d) k) _ _ both.0
    ∙ ap (λ (z : String). d ∷ z) (before-append s t k c e both.1)

pub after-append :
    (s t : String) (k : ℕ) (c : Char)
    → code c ≡ k
    → has_char k s ≡ false
    → after k (append s (c ∷ t)) ≡ t
unfolding append after has_char
after-append [] t k c e h = if_true _ _ _ (ap (λ n. eqb n k) e ∙ eqb_refl k)
after-append (d ∷ s) t k c e h =
    let both = neither (eqb (code d) k) (has_char k s) h in
    if_false (eqb (code d) k) _ _ both.0 ∙ after-append s t k c e both.1

-- A text of decimal digits.
unfoldable pub are_digits : String → Bool
are_digits [] = true
are_digits (c ∷ s) = (leb 48 (code c) && leb (code c) 57) && are_digits s

are_digits-append : (s t : String) → are_digits (append s t) ≡ (are_digits s && are_digits t)
unfolding append are_digits
are_digits-append [] t = refl
are_digits-append (c ∷ s) t = ground (arith, are_digits-append s t)

digit-are_digits : (r : ℕ) → r < 10 → are_digits (digit r) ≡ true
unfolding digit are_digits
digit-are_digits r h =
    at_digit (λ k. are_digits (digit k) ≡ true) refl refl refl refl refl refl refl refl refl refl r
      h

digits-are_digits : (f n : ℕ) → n < f → are_digits (digits f n) ≡ true
unfolding digits are_digits
digits-are_digits zero n h = refl
digits-are_digits (suc f) n h = elim (Bool-cases (eqb (n / 10) 0)) [
  | inl e ↦
      ap are_digits (if_true _ _ _ e) ∙ digit-are_digits n (omega (arith, eqb→eq (n / 10) 0 e))
  | inr e ↦
      ap are_digits (if_false _ _ _ e)
      ∙ are_digits-append (digits f (n / 10)) (digit (n % 10))
      ∙ ap (λ b. b && are_digits (digit (n % 10))) (digits-are_digits f (n / 10) (smaller n f e h))
      ∙ digit-are_digits (n % 10) (omega arith)
]

pub show-are_digits : (n : ℕ) → are_digits (show n) ≡ true
unfolding show
show-are_digits n = digits-are_digits (suc n) n (omega arith)

both : (a b : Bool) → (a && b) ≡ true → (a ≡ true) × (b ≡ true)
both true b e = (refl, e)
both false b e = cc

no_space : (c : Char) → (leb 48 (code c) && leb (code c) 57) ≡ true → is_space c ≡ false
unfolding is_space
no_space c e = ground arith

rstrip-digits : (s : String) → are_digits s ≡ true → rstrip s ≡ s
unfolding rstrip are_digits
rstrip-digits [] e = refl
rstrip-digits (c ∷ s) e =
    let here = both (leb 48 (code c) && leb (code c) 57) (are_digits s) e in
    ap (λ b. keep_left b c (rstrip s)) (no_space c here.0)
    ∙ ap (λ (z : String). c ∷ z) (rstrip-digits s here.1)

-- Digits have no spaces around and no sign.
pub strip-digits : (s : String) → are_digits s ≡ true → strip s ≡ s
unfolding strip lstrip are_digits
strip-digits [] e = refl
strip-digits (c ∷ s) e =
    ap rstrip
      (if_false _ _ _ (no_space c (both (leb 48 (code c) && leb (code c) 57) (are_digits s) e).0))
    ∙ rstrip-digits (c ∷ s) e

pub is_empty-show : (n : ℕ) → is_empty (show n) ≡ false
unfolding show
is_empty-show n = is_empty-digits n n
