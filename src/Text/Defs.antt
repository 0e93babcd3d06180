-- ===== src/Text/Defs.antt =====
-- str.strip, str.lower, str.upper, str.split, `in`, str() of a number, by recursion over the text.
use Prim.Native.Char.{Char, code}
use Prim.Native.Nat.{ℕ, zero, suc, ◌+◌, ◌-◌, ◌*◌, ◌/◌, ◌%◌}
use Prim.Native.String.{String, [], ◌∷◌}
use mathlib.Core.Bool.{Bool, true, false, not, ◌&&◌, ◌||◌}
use mathlib.Core.Option.{Option, none, some}
use text.Mathlib.Text.{◌==◌}
use sipmedia_gw.Prelude.{ltb, leb, eqb, if◌then◌else◌}

-- s + t
unfoldable pub append : String → String → String
append [] t = t
append (c ∷ s) t = c ∷ append s t

abbrev pub is_empty : String → Bool
is_empty [] = true
is_empty (c ∷ s) = false

-- str.isspace of one code point.
unfoldable pub is_space : Char → Bool
is_space c =
    let n = code c in
    (leb 9 n && leb n 13)
    || (leb 28 n && leb n 32)
    || eqb n 133
    || eqb n 160
    || eqb n 5760
    || (leb 8192 n && leb n 8202)
    || eqb n 8232
    || eqb n 8233
    || eqb n 8239
    || eqb n 8287
    || eqb n 12288

unfoldable pub lstrip : String → String
lstrip [] = []
lstrip (c ∷ s) = let rest = lstrip s in if is_space c then rest else c ∷ s

abbrev pub keep_left : Bool → Char → String → String
keep_left true c [] = []
keep_left true c (d ∷ s) = c ∷ d ∷ s
keep_left false c s = c ∷ s

unfoldable pub rstrip : String → String
rstrip [] = []
rstrip (c ∷ s) = keep_left (is_space c) c (rstrip s)

-- s.strip()
unfoldable pub strip : String → String
unfolding lstrip rstrip is_space
strip s = rstrip (lstrip s)

-- Whether the text is empty or begins with no space.
abbrev pub starts_clean : String → Bool
starts_clean [] = true
starts_clean (c ∷ s) = not (is_space c)

-- What follows the prefix, where the text has it.
unfoldable pub strip_prefix : String → String → Option String
strip_prefix [] s = some s
strip_prefix (p ∷ ps) [] = none
strip_prefix (p ∷ ps) (c ∷ s) = if eqb (code p) (code c) then strip_prefix ps s else none

unfoldable pub has_prefix : String → String → Bool
unfolding strip_prefix
has_prefix p s = elim (strip_prefix p s) [ none ↦ false | some _ ↦ true ]

-- `c in s`, for one character.
unfoldable pub has_char : ℕ → String → Bool
has_char n [] = false
has_char n (c ∷ s) = eqb (code c) n || has_char n s

-- `p in s`.
unfoldable pub contains : String → String → Bool
unfolding has_prefix
contains p [] = is_empty p
contains p (c ∷ s) = has_prefix p (c ∷ s) || contains p s

-- s.split(c, 1)[0], and s.split(c, 1)[1] where there is one.
unfoldable pub before : ℕ → String → String
before n [] = []
before n (c ∷ s) = let rest = before n s in if eqb (code c) n then [] else c ∷ rest

unfoldable pub after : ℕ → String → String
after n [] = []
after n (c ∷ s) = let rest = after n s in if eqb (code c) n then s else rest

-- s.split(c)[-1]
unfoldable pub last_part : ℕ → String → String
unfolding has_char
last_part n [] = []
last_part n (c ∷ s) =
    let rest = last_part n s in if has_char n s then rest else if eqb (code c) n then s else c ∷ s

abbrev translate : String → String → Char → Char
translate [] to c = c
translate (f ∷ from) [] c = c
translate (f ∷ from) (t ∷ to) c =
    let rest = translate from to c in if eqb (code f) (code c) then t else rest

-- s.endswith(p)
unfoldable pub has_suffix : String → String → Bool
has_suffix p [] = is_empty p
has_suffix p (c ∷ s) = (p == (c ∷ s)) || has_suffix p s

-- s[n:] and s[:n]
unfoldable pub skip_chars : ℕ → String → String
skip_chars zero s = s
skip_chars (suc n) [] = []
skip_chars (suc n) (c ∷ s) = skip_chars n s

unfoldable pub first_chars : ℕ → String → String
first_chars zero s = []
first_chars (suc n) [] = []
first_chars (suc n) (c ∷ s) = c ∷ first_chars n s

-- str.lower and str.upper, on the letters of ASCII.
unfoldable pub lower : String → String
lower [] = []
lower (c ∷ s) = translate "ABCDEFGHIJKLMNOPQRSTUVWXYZ" "abcdefghijklmnopqrstuvwxyz" c ∷ lower s

unfoldable pub upper : String → String
upper [] = []
upper (c ∷ s) = translate "abcdefghijklmnopqrstuvwxyz" "ABCDEFGHIJKLMNOPQRSTUVWXYZ" c ∷ upper s

unfoldable pub digit : ℕ → String
digit n =
    if eqb n 0
    then "0"
    else if eqb n 1
    then "1"
    else if eqb n 2
    then "2"
    else if eqb n 3
    then "3"
    else if eqb n 4
    then "4"
    else if eqb n 5
    then "5"
    else if eqb n 6
    then "6"
    else if eqb n 7
    then "7"
    else if eqb n 8
    then "8"
    else "9"

-- The decimal digits of `n`; one more round of fuel than `n` is always enough.
unfoldable pub digits : ℕ → ℕ → String
unfolding append digit
digits zero n = ""
digits (suc f) n =
    let rest = append (digits f (n / 10)) (digit (n % 10)) in
    if eqb (n / 10) 0 then digit n else rest

-- str(n)
unfoldable pub show : ℕ → String
unfolding digits
show n = digits (suc n) n

-- The number that a text of decimal digits denotes.
unfoldable pub parse_from : ℕ → String → Option ℕ
parse_from n [] = some n
parse_from n (c ∷ s) =
    let rest = parse_from (n * 10 + (code c - 48)) s in
    if leb 48 (code c) && leb (code c) 57 then rest else none

unfoldable pub parse_nat : String → Option ℕ
unfolding parse_from
parse_nat [] = none
parse_nat (c ∷ s) = parse_from 0 (c ∷ s)

-- s > t, by code points.
unfoldable pub text_gt : String → String → Bool
text_gt s [] = not (is_empty s)
text_gt [] (d ∷ t) = false
text_gt (c ∷ s) (d ∷ t) =
    let rest = text_gt s t in
    if ltb (code d) (code c) then true else if eqb (code c) (code d) then rest else false
