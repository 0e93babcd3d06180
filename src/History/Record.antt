-- ===== src/History/Record.antt =====
-- src/logParse.py: the records of the history file.
use sipmedia_gw.Prelude.{ℕ, String, Option, Dict}

-- Which way the streams of a call were agreed to run, by name.
abbrev pub Directions : Type 0
Directions = Dict String

-- A number as the JSON text spells it.
abbrev pub Number : Type 0
Number = String

-- A line of the history, its JSON object read: `none` for a field that is absent or null. A line
-- that is blank, has no colon or holds no readable JSON is `unreadable`, one of another type is
-- `other`.
pub data Record : Type 0 where
  unreadable : Record
  other : Record
  main_app : String → Record
  call_start :
      Option String → Option String → Option String → Option String → Option Directions → Record
  call_end : Option String → Option String → Record
  encoder : Option String → Option String → Record
  room : Option String → Record
  browsing : Option String → Record
  destination : Option String → Option String → Record
  call_closed :
      Option String
      → Option String
      → Option String
      → Option String
      → Option String
      → Option String
      → Record
  dtmf : Option String → Option String → Record
  media_sample : Option Number → Option String → Record
  stats_value : Option String → Option ℕ → Option String → Option Number → Option Number → Record
