-- ===== src/Gateway/Netstring/Framing.antt =====
-- src/netstring.py: the loop ends, and a socket that gives what it is asked for yields one message.
use Prim.Native.Char.{code}
use Prim.Native.String.{[], ◌∷◌}
use sipmedia_gw.Prelude.{
  ℕ, zero, suc, ◌+◌, ◌-◌, ◌≤◌, ◌<◌, String, ◌≡◌, refl, sym, ◌∙◌, ap, arith, Bool, true, false,
  Option, none, some, ltb, ◌&&◌, ◌||◌, eqb, eqb→eq, leb, Bool-cases, inl, inr, if_true, if_false,
}
use sipmedia_gw.Text.{
  append, is_empty, has_char, before, first_chars, skip_chars, append_assoc, append-nil, are_digits,
}
use sipmedia_gw.Gateway.Names.{size}
use sipmedia_gw.Gateway.Netstring.{or_empty, from_digit, chunk, packet_then, read_rest}
use sipmedia_gw.Gateway.Netstring.Utf8.{decode, is_ascii, both, decode-is_ascii}

zero-test : (n : ℕ) → n ≤ 0 → eqb n 0 ≡ true
zero-test n h = ground arith

fewer : (n f : ℕ) → eqb n 0 ≡ false → n ≤ suc f → n - chunk n ≤ f
fewer n f e h = ground arith

chunk-le : (n : ℕ) → chunk n ≤ n
chunk-le n = ground arith

left_true : (a b : Bool) → (a && b) ≡ true → a ≡ true
left_true true b e = refl
left_true false b e = cc

chunk-pos : (n : ℕ) → eqb n 0 ≡ false → 0 < chunk n
chunk-pos n e = ground arith

module _ (recv : ℕ → String → String × String) where
  packet_then-same :
      (b : Bool) (text : Option String) (received : String) (here x y : String × String)
      → x ≡ y
      → packet_then recv b text received here x ≡ packet_then recv b text received here y
  packet_then-same true text received here x y e = refl
  packet_then-same false none received here x y e = refl
  packet_then-same false (some text) received here x y e = e

  -- The loop ends whatever the socket gives: more rounds than bytes change nothing.
  pub read_rest-enough :
      (f g n : ℕ) (received stream : String)
      → n ≤ f
      → n ≤ g
      → read_rest recv f n received stream ≡ read_rest recv g n received stream
  unfolding read_rest
  read_rest-enough zero zero n received stream h k = refl
  read_rest-enough zero (suc g) n received stream h k = sym (if_true _ _ _ (zero-test n h))
  read_rest-enough (suc f) zero n received stream h k = if_true _ _ _ (zero-test n k)
  read_rest-enough (suc f) (suc g) n received stream h k = elim (Bool-cases (eqb n 0)) [
    | inl e ↦ if_true _ _ _ e ∙ sym (if_true _ _ _ e)
    | inr e ↦
        if_false _ _ _ e
        ∙ packet_then-same _ _ received _ _ _
            (read_rest-enough f g (n - chunk n) _ _ (fewer n f e h) (fewer n g e k))
        ∙ sym (if_false _ _ _ e)
  ]

-- A socket that gives as much as it is asked for, while it has any.
abbrev pub full : ℕ → String → String × String
full n s = (first_chars n s, skip_chars n s)

first-none : (n : ℕ) → first_chars n [] ≡ []
unfolding first_chars
first-none zero = refl
first-none (suc n) = refl

skip-none : (n : ℕ) → skip_chars n [] ≡ []
unfolding skip_chars
skip-none zero = refl
skip-none (suc n) = refl

pub first-split :
    (k n : ℕ) (s : String)
    → k ≤ n
    → append (first_chars k s) (first_chars (n - k) (skip_chars k s)) ≡ first_chars n s
unfolding append first_chars skip_chars
first-split zero n s h = ap (λ m. first_chars m s) (omega arith)
first-split (suc k) zero s h = absurd (omega arith)
first-split (suc k) (suc n) [] h = first-none (suc n - suc k)
first-split (suc k) (suc n) (c ∷ s) h =
    ap (λ (z : String). c ∷ z)
      (ap (λ m. append (first_chars k s) (first_chars m (skip_chars k s))) (omega arith)
        ∙ first-split k n s (omega arith))

pub skip-split :
    (k n : ℕ) (s : String) → k ≤ n → skip_chars (n - k) (skip_chars k s) ≡ skip_chars n s
unfolding skip_chars
skip-split zero n s h = ap (λ m. skip_chars m s) (omega arith)
skip-split (suc k) zero s h = absurd (omega arith)
skip-split (suc k) (suc n) [] h = skip-none (suc n - suc k)
skip-split (suc k) (suc n) (c ∷ s) h =
    ap (λ m. skip_chars m (skip_chars k s)) (omega arith) ∙ skip-split k n s (omega arith)

pub pair : {r s t u : String} → r ≡ s → t ≡ u → ◌≡◌ {A = String × String} (r, t) (s, u)
pair {r} {s} {t} {u} e f = ap (λ (z : String). (z, t)) e ∙ ap (λ (z : String). (s, z)) f

nothing_left :
    (received s : String) (n : ℕ)
    → n ≡ 0
    → ◌≡◌ {A = String × String} (received, s) (append received (first_chars n s), skip_chars n s)
unfolding first_chars skip_chars
nothing_left received s n e =
    pair (sym (append-nil received)) refl
    ∙ ap (λ m. (append received (first_chars m s), skip_chars m s)) (sym e)

is_empty-first : (k : ℕ) (s : String) → 0 < k → is_empty (first_chars k s) ≡ true → s ≡ []
unfolding first_chars
is_empty-first zero s l e = absurd (omega arith)
is_empty-first (suc k) [] l e = refl
is_empty-first (suc k) (c ∷ s) l e = cc

-- A round of the loop.
round :
    (b : Bool) (received s : String) (n k : ℕ) (rest : String × String)
    → k ≤ n
    → 0 < k
    → b ≡ is_empty (first_chars k s)
    → rest ≡ (
      append (append received (first_chars k s)) (first_chars (n - k) (skip_chars k s)),
      skip_chars (n - k) (skip_chars k s),
    )
    → packet_then full b (some (first_chars k s)) received (first_chars k s, skip_chars k s) rest
      ≡ (append received (first_chars n s), skip_chars n s)
round true received s n k rest h l b e =
    let none_left = is_empty-first k s l (sym b) in
    pair
      (sym (append-nil received)
        ∙ ap (append received) (sym (first-none n))
        ∙ ap (λ z. append received (first_chars n z)) (sym none_left))
      (ap (skip_chars k) none_left
        ∙ skip-none k
        ∙ sym (skip-none n)
        ∙ ap (skip_chars n) (sym none_left))
round false received s n k rest h l b e =
    e
    ∙ pair
        (append_assoc received (first_chars k s) (first_chars (n - k) (skip_chars k s))
          ∙ ap (append received) (first-split k n s h))
        (skip-split k n s h)

-- A round whose packet is decoded to itself.
decoded_round :
    (text : Option String) (f n k : ℕ) (received s : String) (r : String × String)
    → text ≡ some (first_chars k s)
    → packet_then full
        (is_empty (first_chars k s))
        (some (first_chars k s))
        received
        (first_chars k s, skip_chars k s)
        (read_rest full f (n - k) (append received (first_chars k s)) (skip_chars k s))
      ≡ r
    → packet_then full
        (is_empty (first_chars k s))
        text
        received
        (first_chars k s, skip_chars k s)
        (read_rest full f (n - k) (append received (or_empty text)) (skip_chars k s))
      ≡ r
decoded_round text f n k received s r same e =
    ap
      (λ o.
        packet_then full (is_empty (first_chars k s)) o received (first_chars k s, skip_chars k s)
          (read_rest full f (n - k) (append received (or_empty o)) (skip_chars k s)))
      same
    ∙ e

first-ascii :
    (n k : ℕ) (s : String)
    → k ≤ n
    → is_ascii (first_chars n s) ≡ true
    → is_ascii (first_chars k s) ≡ true
unfolding is_ascii first_chars
first-ascii n zero s h e = refl
first-ascii zero (suc k) s h e = absurd (omega arith)
first-ascii (suc n) (suc k) [] h e = refl
first-ascii (suc n) (suc k) (c ∷ s) h e =
    let parts = both (ltb (code c) 128) (is_ascii (first_chars n s)) e in
    rw (parts.0) (first-ascii n k s (omega arith) parts.1)

pub rest-ascii :
    (n k : ℕ) (s : String)
    → is_ascii (first_chars n s) ≡ true
    → is_ascii (first_chars (n - k) (skip_chars k s)) ≡ true
unfolding is_ascii first_chars skip_chars
rest-ascii n zero s e = ap (λ m. is_ascii (first_chars m s)) (omega arith) ∙ e
rest-ascii zero (suc k) s e =
    let gone : 0 - suc k ≡ 0 = omega arith in
    ap (λ m. is_ascii (first_chars m (skip_chars (suc k) s))) gone
rest-ascii (suc n) (suc k) [] e = ap is_ascii (first-none (suc n - suc k))
rest-ascii (suc n) (suc k) (c ∷ s) e =
    ap (λ m. is_ascii (first_chars m (skip_chars k s))) (omega arith)
    ∙ rest-ascii n k s (both (ltb (code c) 128) (is_ascii (first_chars n s)) e).1

pub read_rest-full :
    (f n : ℕ) (received s : String)
    → n ≤ f
    → is_ascii (first_chars n s) ≡ true
    → read_rest full f n received s ≡ (append received (first_chars n s), skip_chars n s)
unfolding read_rest
read_rest-full zero n received s h a = nothing_left received s n (omega arith)
read_rest-full (suc f) n received s h a = elim (Bool-cases (eqb n 0)) [
  | inl e ↦ if_true _ _ _ e ∙ nothing_left received s n (eqb→eq n 0 e)
  | inr e ↦
      if_false _ _ _ e
      ∙ decoded_round (decode (first_chars (chunk n) s)) f n (chunk n) received s _
          (decode-is_ascii _ (first-ascii n (chunk n) s (chunk-le n) a))
          (round (is_empty (first_chars (chunk n) s)) received s n (chunk n) _ (chunk-le n)
            (chunk-pos n e) refl
            (read_rest-full f (n - chunk n) _ _ (fewer n f e h) (rest-ascii n (chunk n) s a)))
]

-- The length of a message, and where its first eight bytes end.
pub size-append : (s t : String) → size (append s t) ≡ size s + size t
unfolding size append
size-append [] t = omega arith
size-append (c ∷ s) t = omega (arith, size-append s t)

pub first-prefix :
    (n : ℕ) (s t : String) → n ≤ size s → first_chars n (append s t) ≡ first_chars n s
unfolding first_chars append size
first-prefix zero s t h = refl
first-prefix (suc n) [] t h = absurd (omega arith)
first-prefix (suc n) (c ∷ s) t h = ap (λ (z : String). c ∷ z) (first-prefix n s t (omega arith))

pub before-first :
    (k n : ℕ) (s : String)
    → has_char k (first_chars n s) ≡ true
    → before k (first_chars n s) ≡ before k s
unfolding before first_chars has_char
before-first k zero s h = cc
before-first k (suc n) [] h = cc
before-first k (suc n) (c ∷ s) h = elim (Bool-cases (eqb (code c) k)) [
  | inl e ↦ if_true (eqb (code c) k) _ _ e ∙ sym (if_true (eqb (code c) k) _ _ e)
  | inr e ↦
      if_false (eqb (code c) k) _ _ e
      ∙ ap (λ (z : String). c ∷ z)
          (before-first k n s (sym (ap (λ b. b || has_char k (first_chars n s)) e) ∙ h))
      ∙ sym (if_false (eqb (code c) k) _ _ e)
]

pub digits-colon : (s : String) → are_digits s ≡ true → has_char 58 s ≡ false
unfolding are_digits has_char
digits-colon [] e = refl
digits-colon (c ∷ s) e = ground (arith, digits-colon s)

pub from_digit-first :
    (d t : String) (n k : ℕ)
    → are_digits d ≡ true
    → is_empty d ≡ false
    → from_digit k (first_chars (suc n) (append d t)) ≡ (first_chars (suc n) (append d t), k)
unfolding from_digit first_chars append are_digits
from_digit-first [] t n k e h = cc
from_digit-first (c ∷ d) t n k e h =
    if_true (leb 48 (code c) && leb (code c) 57) _ _ (left_true _ (are_digits d) e)
