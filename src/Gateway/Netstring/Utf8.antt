-- ===== src/Gateway/Netstring/Utf8.antt =====
-- Python's bytes.decode("utf-8"), for the packets of src/netstring.py. A text of bytes has one character
-- for each byte.
use Prim.Native.Char.{Char, char, code}
use Prim.Native.Nat.{compare, Ordering}
use Prim.Native.String.{[], ◌∷◌}
use sipmedia_gw.Prelude.{
  ℕ, zero, suc, ◌+◌, ◌*◌, ◌-◌, ◌≡◌, refl, ap, String, Bool, true, false, ◌&&◌, Option, none, some,
  leb, ltb, if◌then◌else◌, arith,
}
use sipmedia_gw.Text.{append, are_digits, first_chars, skip_chars}

above :
    (n : ℕ) (a b c : Ordering)
    → compare n 55296 ≡ a
    → compare 57343 n ≡ b
    → compare n 1114112 ≡ c
    → Option Char
above n Ordering.lt b c e f g = some (char n (rw e _))
above n Ordering.eq Ordering.lt Ordering.lt e f g = some (char n (rw (e, f, g) _))
above n Ordering.gt Ordering.lt Ordering.lt e f g = some (char n (rw (e, f, g) _))
above n Ordering.eq Ordering.lt Ordering.eq e f g = none
above n Ordering.eq Ordering.lt Ordering.gt e f g = none
above n Ordering.gt Ordering.lt Ordering.eq e f g = none
above n Ordering.gt Ordering.lt Ordering.gt e f g = none
above n Ordering.eq Ordering.eq c e f g = none
above n Ordering.eq Ordering.gt c e f g = none
above n Ordering.gt Ordering.eq c e f g = none
above n Ordering.gt Ordering.gt c e f g = none

-- The character of a code point.
unfoldable pub char_of : ℕ → Option Char
unfolding above
char_of n = above n (compare n 55296) (compare 57343 n) (compare n 1114112) refl refl refl

-- What the first byte of a character asks for: how many more bytes, the least and the most that the
-- next may be, and its own bits.
pub data Lead : Type 0 where
  bad : Lead
  more : ℕ → ℕ → ℕ → ℕ → Lead

unfoldable pub lead : ℕ → Lead
lead b =
    if leb 194 b && leb b 223
    then more 1 128 191 (b - 192)
    else if leb 224 b && leb b 239
    then more 2 (if leb b 224 then 160 else 128) (if leb 237 b && leb b 237 then 159 else 191)
        (b - 224)
    else if leb 240 b && leb b 244
    then more 3 (if leb b 240 then 144 else 128) (if leb 244 b then 143 else 191) (b - 240)
    else bad

abbrev pub before_rest : Option Char → Option String → Option String
before_rest none rest = none
before_rest (some c) none = none
before_rest (some c) (some rest) = some (c ∷ rest)

-- The text of the bytes, `none` for an exception, with so many bytes of a character still to come.
unfoldable pub decode_from : ℕ → ℕ → ℕ → ℕ → String → Option String
unfolding char_of lead
decode_from zero low high bits [] = some []
decode_from (suc k) low high bits [] = none
decode_from zero low high bits (c ∷ s) = elim (ltb (code c) 128) [
  | true ↦ before_rest (some c) (decode_from 0 0 0 0 s)
  | false ↦ elim (lead (code c)) [ bad ↦ none | more k l h b ↦ decode_from k l h b s ]
]
decode_from (suc zero) low high bits (c ∷ s) = elim (leb low (code c) && leb (code c) high) [
  | true ↦ before_rest (char_of (bits * 64 + (code c - 128))) (decode_from 0 0 0 0 s)
  | false ↦ none
]
decode_from (suc (suc k)) low high bits (c ∷ s) = elim (leb low (code c) && leb (code c) high) [
  | true ↦ decode_from (suc k) 128 191 (bits * 64 + (code c - 128)) s
  | false ↦ none
]

unfoldable pub decode : String → Option String
unfolding decode_from
decode s = decode_from 0 0 0 0 s

-- The text of json.dumps, and its own bytes.
unfoldable pub is_ascii : String → Bool
is_ascii [] = true
is_ascii (c ∷ s) = ltb (code c) 128 && is_ascii s

pub both : (a b : Bool) → (a && b) ≡ true → (a ≡ true) × (b ≡ true)
both true b e = (refl, e)
both false b e = cc

pub decode-is_ascii : (s : String) → is_ascii s ≡ true → decode s ≡ some s
unfolding decode decode_from is_ascii
decode-is_ascii [] e = refl
decode-is_ascii (c ∷ s) e =
    let parts = both (ltb (code c) 128) (is_ascii s) e in
    rw (decode, decode_from, parts.0) (ap (before_rest (some c)) (decode-is_ascii s parts.1))

pub is_ascii-first : (n : ℕ) (s : String) → is_ascii s ≡ true → is_ascii (first_chars n s) ≡ true
unfolding is_ascii first_chars
is_ascii-first zero s e = refl
is_ascii-first (suc n) [] e = refl
is_ascii-first (suc n) (c ∷ s) e =
    let parts = both (ltb (code c) 128) (is_ascii s) e in rw (parts.0) (is_ascii-first n s parts.1)

pub is_ascii-skip : (n : ℕ) (s : String) → is_ascii s ≡ true → is_ascii (skip_chars n s) ≡ true
unfolding is_ascii skip_chars
is_ascii-skip zero s e = e
is_ascii-skip (suc n) [] e = refl
is_ascii-skip (suc n) (c ∷ s) e = is_ascii-skip n s (both (ltb (code c) 128) (is_ascii s) e).1

pub is_ascii-append :
    (s t : String) → is_ascii s ≡ true → is_ascii t ≡ true → is_ascii (append s t) ≡ true
unfolding is_ascii append
is_ascii-append [] t e f = f
is_ascii-append (c ∷ s) t e f =
    let parts = both (ltb (code c) 128) (is_ascii s) e in
    rw (parts.0) (is_ascii-append s t parts.1 f)

pub digits-is_ascii : (s : String) → are_digits s ≡ true → is_ascii s ≡ true
unfolding is_ascii are_digits
digits-is_ascii [] e = refl
digits-is_ascii (c ∷ s) e = ground (arith, digits-is_ascii s)
