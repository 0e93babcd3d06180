-- ===== src/Text/Laws.antt =====
-- The laws of stripping and splitting that the components use.
use Prim.Native.Char.{Char, code}
use Prim.Native.String.{String, [], ◌∷◌}
use mathlib.Core.Path.{ap₂}
use text.Mathlib.TextEquality.{Char-path}
use sipmedia_gw.Prelude.{
  ◌<◌, ltb, Bool, if◌then◌else◌, ◌⊎◌, ℕ, ◌≡◌, refl, sym, ap, true, false, false≢true, arith, eqb,
  Bool-cases, inl, inr, eqb→eq, eqb_refl, some, Option-cases,
}
use sipmedia_gw.Text.Defs.{
  append, is_space, lstrip, rstrip, strip, keep_left, starts_clean, has_char, before, after,
  strip_prefix, has_prefix, text_gt,
}

pub append-nil : (s : String) → append s [] ≡ s
unfolding append
append-nil [] = refl
append-nil (c ∷ s) = ap (λ (t : String). c ∷ t) (append-nil s)

pub append_assoc : (s t u : String) → append (append s t) u ≡ append s (append t u)
unfolding append
append_assoc [] t u = refl
append_assoc (c ∷ s) t u = ap (λ (t : String). c ∷ t) (append_assoc s t u)

pub starts_clean-lstrip : (s : String) → starts_clean (lstrip s) ≡ true
unfolding lstrip
starts_clean-lstrip [] = refl
starts_clean-lstrip (c ∷ s) = elim (Bool-cases (is_space c)) [
  | inl e ↦ rw e (starts_clean-lstrip s)
  | inr e ↦ rw e (rw e)
]

pub lstrip-clean : (s : String) → starts_clean s ≡ true → lstrip s ≡ s
unfolding lstrip
lstrip-clean [] h = refl
lstrip-clean (c ∷ s) h = ground arith

keep_left-clean :
    (c : Char) (s : String) → is_space c ≡ false → starts_clean (keep_left false c s) ≡ true
keep_left-clean c s e = rw e

starts_clean-rstrip : (s : String) → starts_clean s ≡ true → starts_clean (rstrip s) ≡ true
unfolding rstrip
starts_clean-rstrip [] h = refl
starts_clean-rstrip (c ∷ s) h = elim (Bool-cases (is_space c)) [
  | inl e ↦ ground arith
  | inr e ↦ rw e (rw e)
]

rstrip-keep_left :
    (c : Char) (t : String)
    → rstrip t ≡ t
    → rstrip (keep_left (is_space c) c t) ≡ keep_left (is_space c) c t
unfolding rstrip
rstrip-keep_left c [] h = elim (Bool-cases (is_space c)) [ inl e ↦ rw e | inr e ↦ rw e (rw e) ]
rstrip-keep_left c (d ∷ t) h = elim (Bool-cases (is_space c)) [
  | inl e ↦ rw e (ground (arith, h))
  | inr e ↦ rw e (ground (arith, h))
]

pub rstrip_idem : (s : String) → rstrip (rstrip s) ≡ rstrip s
unfolding rstrip
rstrip_idem [] = refl
rstrip_idem (c ∷ s) = rstrip-keep_left c (rstrip s) (rstrip_idem s)

pub strip_idem : (s : String) → strip (strip s) ≡ strip s
unfolding strip
strip_idem s =
    rw (lstrip-clean (rstrip (lstrip s)) (starts_clean-rstrip (lstrip s) (starts_clean-lstrip s)))
      (rstrip_idem (lstrip s))

-- A text with the separator is its first part, the separator and the rest.
pub append-after :
    (c : Char) (s : String)
    → has_char (code c) s ≡ true
    → append (before (code c) s) (c ∷ after (code c) s) ≡ s
unfolding append before after has_char
append-after c [] h = absurd (false≢true h)
append-after c (d ∷ s) h = elim (Bool-cases (eqb (code d) (code c))) [
  | inl e ↦ rw e (ap (λ (x : Char). x ∷ s) (Char-path c d (sym (eqb→eq _ _ e))))
  | inr e ↦ rw e (ap (λ (t : String). d ∷ t) (append-after c s (ground arith)))
]

-- The first part of a split has no separator.
pub has_char-before : (n : ℕ) (s : String) → has_char n (before n s) ≡ false
unfolding before has_char
has_char-before n [] = refl
has_char-before n (c ∷ s) = elim (Bool-cases (eqb (code c) n)) [
  | inl e ↦ rw e
  | inr e ↦ rw (e, e) (has_char-before n s)
]

-- A text with a prefix is the prefix and what follows it.
pub eq_of_strip_prefix : (p s r : String) → strip_prefix p s ≡ some r → s ≡ append p r
unfolding strip_prefix append
eq_of_strip_prefix [] s r h = cc
eq_of_strip_prefix (a ∷ p) [] r h = cc
eq_of_strip_prefix (a ∷ p) (c ∷ s) r h = elim (Bool-cases (eqb (code a) (code c))) [
  | inl e ↦
      ap₂ (λ (x : Char) (t : String). x ∷ t) (Char-path c a (sym (eqb→eq _ _ e)))
        (eq_of_strip_prefix p s r (rw e at h))
  | inr e ↦ cc (rw e at h)
]

pub strip_prefix-append : (p r : String) → strip_prefix p (append p r) ≡ some r
unfolding strip_prefix append
strip_prefix-append [] r = refl
strip_prefix-append (a ∷ p) r = rw (eqb_refl (code a)) (strip_prefix-append p r)

pub has_prefix-append : (p r : String) → has_prefix p (append p r) ≡ true
unfolding has_prefix
has_prefix-append p r = rw (strip_prefix-append p r, has_prefix)

pub eq_of_has_prefix : (p s : String) → has_prefix p s ≡ true → (r : String) × (s ≡ append p r)
unfolding has_prefix
eq_of_has_prefix p s h = elim (Option-cases (strip_prefix p s)) [
  | inl e ↦ absurd (false≢true (rw (e, has_prefix) at h))
  | inr (r, e) ↦ (r, eq_of_strip_prefix p s r e)
]

text_gt_head :
    (m n : ℕ) (r : Bool)
    → (if ltb n m then true else if eqb m n then r else false) ≡ true
    → (n < m) ⊎ ((m ≡ n) × (r ≡ true))
text_gt_head m n r h = ground arith

text_gt_less :
    (m n : ℕ) (r : Bool) → n < m → (if ltb n m then true else if eqb m n then r else false) ≡ true
text_gt_less m n r h = ground arith

text_gt_same :
    (m n : ℕ) (r : Bool)
    → m ≡ n
    → r ≡ true
    → (if ltb n m then true else if eqb m n then r else false) ≡ true
text_gt_same m n r h k = ground arith

text_gt_equal :
    (m : ℕ) (r : Bool)
    → r ≡ false
    → (if ltb m m then true else if eqb m m then r else false) ≡ false
text_gt_equal m r h = ground arith

-- The order of texts is transitive.
pub text_gt_trans : (a b c : String) → text_gt a b ≡ true → text_gt b c ≡ true → text_gt a c ≡ true
unfolding text_gt
text_gt_trans [] [] [] h k = h
text_gt_trans (x ∷ a) b [] h k = refl
text_gt_trans [] [] (z ∷ c) h k = k
text_gt_trans [] (y ∷ b) c h k = absurd (false≢true h)
text_gt_trans (x ∷ a) [] (z ∷ c) h k = absurd (false≢true k)
text_gt_trans (x ∷ a) (y ∷ b) (z ∷ c) h k = elim (text_gt_head (code x) (code y) (text_gt a b) h) [
  | inl p ↦ elim (text_gt_head (code y) (code z) (text_gt b c) k) [
    | inl q ↦ text_gt_less (code x) (code z) _ (omega arith)
    | inr q ↦ text_gt_less (code x) (code z) _ (omega (arith, q.0))
  ]
  | inr p ↦ elim (text_gt_head (code y) (code z) (text_gt b c) k) [
    | inl q ↦ text_gt_less (code x) (code z) _ (omega (arith, p.0))
    | inr q ↦
        text_gt_same (code x) (code z) _ (omega (arith, p.0, q.0)) (text_gt_trans a b c p.1 q.1)
  ]
]

pub text_gt_irrefl : (a : String) → text_gt a a ≡ false
unfolding text_gt
text_gt_irrefl [] = refl
text_gt_irrefl (x ∷ a) = text_gt_equal (code x) (text_gt a a) (text_gt_irrefl a)

-- A text without spaces around it begins with no space.
pub starts_clean-strip : (s : String) → starts_clean (strip s) ≡ true
unfolding strip
starts_clean-strip s = starts_clean-rstrip (lstrip s) (starts_clean-lstrip s)
