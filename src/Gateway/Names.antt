-- ===== src/Gateway/Names.antt =====
-- The display name of a caller, which carries the room that was dialled from the router
-- (deploy/kamailio/config/request_gw.py) to the gateway (src/event_handler.py, HTTPLauncher.py).
pub mod Decoding
use Prim.Native.Char.{code}
use Prim.Native.String.{[], ◌∷◌}
use sipmedia_gw.Prelude.{
  ℕ, suc, String, Bool, true, false, ◌||◌, Option, none, some, eqb, if◌then◌else◌,
}
use sipmedia_gw.Text.{
  append, is_empty, strip, has_char, before, after, last_part, skip_chars, first_chars, show,
  parse_nat,
}

unfoldable pub size : String → ℕ
size [] = 0
size (c ∷ s) = suc (size s)

-- s.replace('"', '')
unfoldable pub without_quotes : String → String
without_quotes [] = []
without_quotes (c ∷ s) = let rest = without_quotes s in if eqb (code c) 34 then rest else c ∷ rest

-- RequestGw.handler: the room of the dialled URI, and the name of a From header.
unfoldable pub room_of : String → String
unfolding before after
room_of uri = before 64 (after 58 uri)

unfoldable pub name_of : String → String
unfolding before has_char
name_of from = if has_char 60 from then before 60 from else ""

-- The name that the router gives the caller: the length of the room, the room, and the name.
unfoldable pub with_room : String → String → String
unfolding size show append without_quotes
with_room room name = append (show (size room)) (append "-" (append room (without_quotes name)))

-- int(s): the sign "+" and spaces around are allowed. A "_" between digits and the digits of other
-- scripts are left out.
abbrev pub unsigned : String → String
unsigned [] = []
unsigned (c ∷ s) = if eqb (code c) 43 then s else c ∷ s

unfoldable pub int_of : String → Option ℕ
unfolding strip parse_nat
int_of s = parse_nat (unsigned (strip s))

-- What CALL_ESTABLISHED reads from a display name: the room, where there is one, and the name.
abbrev pub split_at : String → String → Option ℕ → Option String × String
split_at whole rest none = (none, whole)
split_at whole rest (some n) = (some (first_chars n rest), skip_chars n rest)

unfoldable pub decode : String → Option String × String
unfolding has_char before after int_of first_chars skip_chars
decode s = if has_char 45 s then split_at s (after 45 s) (int_of (before 45 s)) else (none, s)

abbrev pub name_at : String → String → Option ℕ → String
name_at whole rest none = whole
name_at whole rest (some n) = strip (skip_chars n rest)

abbrev pub shown_name : String → String
shown_name value =
    if is_empty value
    then ""
    else if has_char 45 value
    then name_at value (after 45 value) (int_of (before 45 value))
    else value

-- DockerGateway.parseDisplayName
unfoldable pub parse_display_name : String → String
unfolding strip has_char before after int_of skip_chars
parse_display_name raw = shown_name (strip raw)
