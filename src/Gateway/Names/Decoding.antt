-- ===== src/Gateway/Names/Decoding.antt =====
-- The two readings of a display name, and the one that writes it.
use Prim.Native.Char.{Char, code}
use Prim.Native.String.{[], ◌∷◌}
use sipmedia_gw.Prelude.{
  ℕ, String, ◌≡◌, refl, sym, ◌∙◌, ap, arith, true, false, ◌&&◌, eqb, leb, Option, none, some,
  Bool-cases, inl, inr, if_true, if_false,
}
use sipmedia_gw.Text.{
  append, strip, has_char, before, after, skip_chars, first_chars, show, parse_nat, parse_nat-show,
  show-dash, before-append, after-append, show-are_digits, strip-digits, are_digits,
}
use sipmedia_gw.Gateway.Names.{
  size, without_quotes, with_room, int_of, unsigned, split_at, decode, name_at, shown_name,
  parse_display_name,
}

pub skip-append : (s t : String) → skip_chars (size s) (append s t) ≡ t
unfolding skip_chars size append
skip-append [] t = refl
skip-append (c ∷ s) t = skip-append s t

pub first-append : (s t : String) → first_chars (size s) (append s t) ≡ s
unfolding first_chars size append
first-append [] t = refl
first-append (c ∷ s) t = ap (λ z. c ∷ z) (first-append s t)

no_plus :
    (c : Char) (s : String)
    → ((leb 48 (code c) && leb (code c) 57) && are_digits s) ≡ true
    → eqb (code c) 43 ≡ false
no_plus c s e = ground arith

unsigned-digits : (s : String) → are_digits s ≡ true → unsigned s ≡ s
unfolding are_digits
unsigned-digits [] e = refl
unsigned-digits (c ∷ s) e = if_false _ _ _ (no_plus c s e)

pub int_of-show : (n : ℕ) → int_of (show n) ≡ some n
unfolding int_of
int_of-show n =
    ap (λ s. parse_nat (unsigned s)) (strip-digits (show n) (show-are_digits n))
    ∙ ap parse_nat (unsigned-digits (show n) (show-are_digits n))
    ∙ parse_nat-show n

dashed : (s t : String) → has_char 45 (append s (append "-" t)) ≡ true
unfolding append has_char
dashed [] t = refl
dashed (c ∷ s) t = ground (arith, dashed s t)

both_parts :
    {r s t u : String} → r ≡ s → t ≡ u → ◌≡◌ {A = Option String × String} (some r, t) (some s, u)
both_parts {r} {s} {t} {u} e f =
    ap (λ (z : String). (some z, t)) e ∙ ap (λ (z : String). (some s, z)) f

-- What the router writes, the event handler reads: the room, whatever it holds, and the name
-- without its quotes.
pub decode-with_room :
    (room name : String) → decode (with_room room name) ≡ (some room, without_quotes name)
unfolding decode with_room append
decode-with_room room name =
    let dash : Char = "-" in
    let number = show (size room) in
    let rest = append room (without_quotes name) in
    if_true _ _ _ (dashed number rest)
    ∙ ap
        (λ o.
          split_at (append number (dash ∷ rest)) o
            (int_of (before 45 (append number (dash ∷ rest)))))
        (after-append number rest 45 dash refl (show-dash (size room)))
    ∙ ap (λ o. split_at (append number (dash ∷ rest)) rest (int_of o))
        (before-append number rest 45 dash refl (show-dash (size room)))
    ∙ ap (split_at (append number (dash ∷ rest)) rest) (int_of-show (size room))
    ∙ both_parts (first-append room (without_quotes name)) (skip-append room (without_quotes name))

name-split :
    (whole rest : String) (o : Option ℕ)
    → strip whole ≡ whole
    → name_at whole rest o ≡ strip (split_at whole rest o).1
name-split whole rest none clean = sym clean
name-split whole rest (some n) clean = refl

shown-decode : (s : String) → strip s ≡ s → shown_name s ≡ strip (decode s).1
unfolding decode strip
shown-decode [] clean = refl
shown-decode (c ∷ s) clean = elim (Bool-cases (has_char 45 (c ∷ s))) [
  | inl e ↦
      if_true _ _ _ e
      ∙ name-split (c ∷ s) (after 45 (c ∷ s)) (int_of (before 45 (c ∷ s))) clean
      ∙ ap (λ (z : Option String × String). strip z.1) (sym (if_true _ _ _ e))
  | inr e ↦
      if_false _ _ _ e
      ∙ sym clean
      ∙ ap (λ (z : Option String × String). strip z.1) (sym (if_false _ _ _ e))
]

-- The launcher shows the name that the event handler has read, stripped, for a display name with
-- no spaces around.
pub parse_display_name-decode :
    (s : String) → strip s ≡ s → parse_display_name s ≡ strip (decode s).1
unfolding parse_display_name
parse_display_name-decode s clean = ap shown_name clean ∙ shown-decode s clean
