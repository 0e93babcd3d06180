-- ===== src/Gateway/Netstring.antt =====
-- src/netstring.py: the messages that baresip and the event handler exchange. The socket gives bytes,
-- a character for each, and has no timeout, which event_handler.py does not ask for.
pub mod Utf8
pub mod Framing
pub mod Messages
use Prim.Native.Char.{Char, code}
use Prim.Native.String.{[], ◌∷◌}
use sipmedia_gw.Prelude.{
  ℕ, zero, suc, ◌+◌, ◌-◌, ◌/◌, ◌%◌, String, Bool, true, false, ◌&&◌, Option, none, some, eqb, leb,
  ltb, if◌then◌else◌,
}
use sipmedia_gw.Text.{append, is_empty, has_prefix, has_char, before, first_chars, skip_chars, show}
use sipmedia_gw.History.Lines.{after_text}
use sipmedia_gw.Gateway.Names.{size, int_of}
use sipmedia_gw.Gateway.Netstring.Utf8.{decode}

-- __sendCommand, on the text of json.dumps, which is ASCII.
unfoldable pub encode : String → String
unfolding append show size
encode text = append (show (size text)) (append ":" (append text ","))

-- What stands before the first `p`.
unfoldable pub before_text : String → String → String
unfolding has_prefix
before_text p [] = []
before_text p (c ∷ s) = let rest = before_text p s in if has_prefix p (c ∷ s) then [] else c ∷ rest

-- s[0:len(s)-1]
unfoldable pub without_last : String → String
unfolding size first_chars
without_last s = first_chars (size s - 1) s

-- s[0:s.find(':')]: a text without ":" loses its last character.
abbrev pub length_of : String → String
length_of s = if has_char 58 s then before 58 s else without_last s

abbrev pub part_of : String → Option String → Option String
part_of p none = none
part_of p (some rest) = some (without_last (before_text p rest))

-- decodeNetString up to the reading of the JSON text: `none` for an exception.
unfoldable pub decode_text : String → Option String
unfolding has_char before without_last after_text before_text append
decode_text s = let p = append (length_of s) ":" in part_of p (after_text p s)

-- What the first reading of eight bytes leaves: the text without its leading characters that are no
-- digits, and how many bytes of the message it counts for.
unfoldable pub from_digit : ℕ → String → String × ℕ
from_digit n [] = ([], n)
from_digit n (c ∷ s) =
    let rest = from_digit (n - 1) s in
    if leb 48 (code c) && leb (code c) 57 then (c ∷ s, n) else rest

-- How many bytes are asked for next.
abbrev pub chunk : ℕ → ℕ
chunk n = if eqb (n / 1024) 0 then n % 1024 else 1024

-- How many bytes of the message are left, once its length is read.
abbrev pub left_of : Option ℕ → ℕ → ℕ → ℕ
left_of none colon read = 0
left_of (some n) colon read = colon + 2 + n - read

unfoldable pub data_len : String → ℕ → ℕ
unfolding has_char before int_of size
data_len received read =
    if has_char 58 received
    then left_of (int_of (before 58 received)) (size (before 58 received)) read
    else 0

abbrev pub or_empty : Option String → String
or_empty none = ""
or_empty (some s) = s

-- `recv` is the socket's: how many bytes are asked for and what it has still to give make the packet
-- and what it has then.
module _ (recv : ℕ → String → String × String) where
  -- Whether a packet is empty, and its text: without one the reading ends with what was received.
  abbrev pub packet_then :
      Bool → Option String → String → String × String → String × String → String × String
  packet_then true text received here rest = (received, here.1)
  packet_then false none received here rest = (received, here.1)
  packet_then false (some text) received here rest = rest

  -- The loop of __getStatus, on fuel.
  unfoldable pub read_rest : ℕ → ℕ → String → String → String × String
  unfolding append decode
  read_rest zero n received stream = (received, stream)
  read_rest (suc f) n received stream =
      let here = recv (chunk n) stream in
      let text = decode here.0 in
      let rest = read_rest f (n - chunk n) (append received (or_empty text)) here.1 in
      if eqb n 0 then (received, stream) else packet_then (is_empty here.0) text received here rest

  abbrev pub read_on : Option String → String → String × String
  read_on none stream = ("", stream)
  read_on (some head) stream =
      let start = from_digit 8 head in
      let n = data_len start.0 start.1 in read_rest n n start.0 stream

  -- __getStatus: a message, and what the socket has then. As many rounds as bytes are enough.
  unfoldable pub get_status : String → String × String
  unfolding from_digit data_len read_rest decode
  get_status stream = let first = recv 8 stream in read_on (decode first.0) first.1
