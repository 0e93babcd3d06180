-- ===== src/History/Lines.antt =====
-- src/logParse.py: the lines of the log that its regular expressions match. A line is stripped and
-- holds no line break.
use Prim.Native.Char.{Char, code}
use Prim.Native.String.{[], ◌∷◌}
use sipmedia_gw.Prelude.{
  String, Bool, true, false, not, ◌&&◌, ◌||◌, Option, none, some, List, [], ◌∷◌, ℕ, eqb, leb,
  if◌then◌else◌,
}
use sipmedia_gw.Text.{
  append, is_empty, is_space, lstrip, strip, strip_prefix, has_char, before, after, parse_nat,
}

-- text.split(p, 1)[1], where the text holds `p`.
unfoldable pub after_text : String → String → Option String
unfolding strip_prefix
after_text p [] = strip_prefix p []
after_text p (c ∷ s) = elim (strip_prefix p (c ∷ s)) [
  | none ↦ after_text p s
  | some rest ↦ some rest
]

abbrev or_try {ℓ} : {A : Type ℓ} → Option A → Option A → Option A
or_try none other = other
or_try (some a) other = some a

abbrev not_blank : Option String → Option String
not_blank none = none
not_blank (some s) = if is_empty s then none else some s

abbrev named : String → Option String → Option (String × String)
named name none = none
named name (some s) = some (name, s)

unfoldable stripped : Option String → Option String
unfolding strip
stripped none = none
stripped (some s) = some (strip s)

abbrev pub prefixed : String → Option String → Option String
prefixed p none = none
prefixed p (some s) = strip_prefix p s

abbrev pub spaced : Option String → Option String
spaced none = none
spaced (some s) = some (lstrip s)

-- encoderRegex, at the beginning of a text and anywhere in it.
unfoldable encoder_at : String → Option (String × String)
unfolding strip_prefix stripped
encoder_at s =
    or_try (named "audio" (stripped (not_blank (strip_prefix "Set audio encoder:" s))))
      (named "video" (stripped (not_blank (strip_prefix "Set video encoder:" s))))

unfoldable pub encoder_match : String → Option (String × String)
unfolding encoder_at
encoder_match [] = none
encoder_match (c ∷ s) = or_try (encoder_at (c ∷ s)) (encoder_match s)

-- dtmfRegex
unfoldable pub dtmf_match : String → Option String
unfolding strip_prefix lstrip
dtmf_match line =
    not_blank (prefixed "Received DTMF:" (or_try (spaced (strip_prefix "Event:" line)) (some line)))

-- A text of one character or more before the first `n`, and what follows it.
unfoldable pub cut : ℕ → Option String → Option (String × String)
unfolding has_char before after
cut n none = none
cut n (some s) =
    if has_char n s && not (is_empty (before n s)) then some (before n s, after n s) else none

abbrev is_word : Option String → Bool
is_word none = false
is_word (some []) = false
is_word (some (c ∷ s)) = not (is_space c)

abbrev second : Option (String × String) → Option String
second none = none
second (some x) = some x.1

abbrev kept_if : Bool → String → String → Option (String × String)
kept_if false user domain = none
kept_if true user domain = some (user, domain)

-- What follows the domain of a destination calls with a user at a domain.
unfoldable pub is_call_with : String → Bool
unfolding strip_prefix lstrip cut is_space
is_call_with s =
    is_word (second (cut 64 (prefixed "sip:" (spaced (prefixed "Call with" (some (lstrip s)))))))

abbrev destination_of : String → Option (String × String) → Option (String × String)
destination_of user none = none
destination_of user (some x) = kept_if (is_call_with x.1) user x.0

abbrev with_domain : Option (String × String) → Option (String × String)
with_domain none = none
with_domain (some x) = destination_of x.0 (cut 58 (some x.1))

-- baresipRegex: the user and the domain of the destination.
unfoldable pub destination_match : String → Option (String × String)
unfolding strip_prefix cut is_call_with
destination_match line = with_domain (cut 64 (strip_prefix "sip:" line))

abbrev is_blank : Option String → Bool
is_blank none = false
is_blank (some s) = is_empty s

abbrev begins_spaced : String → Bool
begins_spaced [] = false
begins_spaced (c ∷ s) = is_space c

-- `\s+Transmit:\s*Receive:\s*$`
unfoldable pub is_heading : String → Bool
unfolding strip_prefix lstrip is_space
is_heading s =
    begins_spaced s
    && is_blank (spaced (prefixed "Receive:" (spaced (prefixed "Transmit:" (some (lstrip s))))))

abbrev pub is_digit : Char → Bool
is_digit c = leb 48 (code c) && leb (code c) 57

-- The digits that a text begins with, and the rest.
unfoldable pub digits_of : String → String × String
digits_of [] = ([], [])
digits_of (c ∷ s) =
    let rest = digits_of s in if is_digit c then (c ∷ rest.0, rest.1) else ([], c ∷ s)

-- The number of a stream, if a heading has one.
abbrev heading_of : String → Option String → Option (String × Option ℕ)
heading_of media none = none
heading_of media (some s) =
    let number = digits_of (lstrip s) in
    if is_heading s
    then some (media, none)
    else if begins_spaced s && (not (is_empty number.0) && is_heading number.1)
    then some (media, parse_nat number.0)
    else none

-- statHeaderRegex
unfoldable pub heading_match : String → Option (String × Option ℕ)
unfolding strip_prefix is_heading digits_of lstrip is_space parse_nat
heading_match line =
    or_try (heading_of "audio" (strip_prefix "audio" line))
      (heading_of "video" (strip_prefix "video" line))

abbrev filled : String × String → Option (String × String)
filled x = if is_empty x.1 then none else some (strip x.0, x.1)

abbrev value_of : Option (String × String) → Option (String × String)
value_of none = none
value_of (some x) = filled x

-- statValueRegex: the label and the rest.
unfoldable pub value_match : String → Option (String × String)
unfolding cut strip
value_match line = value_of (cut 58 (some line))

-- Where the search for numbers is: outside one, behind a sign, in the whole part, behind its point,
-- in the fraction.
pub data Search : Type 0 where
  outside : Search
  signed : String → Search
  whole : String → Search
  pointed : String → Search
  fraction : String → Search

abbrev snoc : String → Char → String
snoc s c = append s (c ∷ [])

abbrev found : Search → List String → List String
found outside ns = ns
found (signed t) ns = ns
found (whole t) ns = t ∷ ns
found (pointed t) ns = t ∷ ns
found (fraction t) ns = t ∷ ns

abbrev anew : Char → Search
anew c =
    if is_digit c
    then whole (c ∷ [])
    else if eqb (code c) 43 || eqb (code c) 45
    then signed (c ∷ [])
    else outside

-- The next state, and whether a number has ended.
abbrev moves : Search → Char → Search × Bool
moves outside c = (anew c, false)
moves (signed t) c = if is_digit c then (whole (snoc t c), false) else (anew c, false)
moves (whole t) c =
    if is_digit c
    then (whole (snoc t c), false)
    else if eqb (code c) 46
    then (pointed t, false)
    else (anew c, true)
moves (pointed t) c =
    if is_digit c then (fraction (snoc (append t ".") c), false) else (anew c, true)
moves (fraction t) c = if is_digit c then (fraction (snoc t c), false) else (anew c, true)

unfoldable pub numbers_from : Search → String → List String
unfolding append
numbers_from q [] = found q []
numbers_from q (c ∷ s) =
    let rest = numbers_from (moves q c).0 s in if (moves q c).1 then found q rest else rest

-- numRegex.findall
unfoldable pub numbers : String → List String
unfolding numbers_from
numbers s = numbers_from outside s
