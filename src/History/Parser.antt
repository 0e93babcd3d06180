-- ===== src/History/Parser.antt =====
-- src/logParse.py: main, what the parser of a log writes into the history line by line.
pub mod Once
pub mod Shutdown
use Prim.Native.String.{[], ◌∷◌}
use sipmedia_gw.Prelude.{
  ℕ, suc, max, String, ◌==◌, Bool, true, false, not, ◌&&◌, ◌||◌, Option, none, some, List, [], ◌∷◌,
  ◌++◌, Dict, lookup, if◌then◌else◌,
}
use sipmedia_gw.Text.{append, is_empty, strip, strip_prefix, has_prefix, has_suffix, contains}
use sipmedia_gw.SipUri.{normalize_sip_uri}
use sipmedia_gw.History.Record.{
  Number, Record, other, call_start, call_end, encoder, room, browsing, destination, call_closed,
  dtmf, media_sample, stats_value,
}
use sipmedia_gw.History.Fold.{text}
use sipmedia_gw.History.Lines.{
  after_text, encoder_match, dtmf_match, destination_match, heading_match, value_match, numbers,
}

-- The clock, in the three spellings of the history.
pub record Stamp : Type 0 where
  pub raw : String
  pub iso : String
  pub iso_ms : String

-- What main keeps between two lines; `next_video` is videoAutoIndex + 1.
pub record Parser : Type 0 where
  pub started : Bool
  pub media : Option String
  pub stream : Option ℕ
  pub next_video : ℕ
  pub last_final : Option String

abbrev pub at_start : Parser
at_start = record {
  started = false;
  media = none;
  stream = none;
  next_video = 0;
  last_final = none;
}

-- A line of the log writes records into the history and pushes it. `gw_start` writes a record that
-- the payload does not use.
pub data Action : Type 0 where
  gw_start : Stamp → String → Action
  writes : Record → Action
  pushes : Action

abbrev pub Step : Type 0
Step = Option (Parser × List Action)

abbrev pub or_else : Step → Step → Step
or_else none later = later
or_else (some x) later = some x

-- The fields of an event, read from JSON or from a Python literal.
abbrev pub Event : Type 0
Event = Dict String

unfoldable pub field : String → Event → String
unfolding lookup strip
field key event = strip (text (lookup key event))

abbrev or_whole : String → Option String → String
or_whole s none = s
or_whole s (some t) = strip t

-- `read` is json.loads, or else ast.literal_eval, on a text in braces.
module _ (read : String → Option Event) where
  unfoldable pub parse_event : String → Option Event
  unfolding strip strip_prefix has_prefix has_suffix contains
  parse_event line =
      let s = or_whole (strip line) (strip_prefix "Event:" (strip line)) in
      if not (has_prefix "{" s && has_suffix "}" s)
      then none
      else if not (contains "'type'" s || contains "\"type\"" s)
      then none
      else read s

  unfoldable pub started_record : Stamp → Event → Record
  unfolding field
  started_record now ev = call_start none (some now.iso) none (some (field "peeruseragent" ev)) (
      some (
        ("audio", field "audiodir" ev)
        ∷ ("video", field "videodir" ev)
        ∷ ("remoteAudio", field "remoteaudiodir" ev)
        ∷ ("remoteVideo", field "remotevideodir" ev)
        ∷ ("localAudio", field "localaudiodir" ev)
        ∷ ("localVideo", field "localvideodir" ev)
        ∷ []))

  unfoldable pub closed_record : Event → Record
  unfolding field normalize_sip_uri
  closed_record ev =
      call_closed (some "CALL_CLOSED") (some (field "id" ev)) (some (field "peerdisplayname" ev))
        (some (field "param" ev)) (some (normalize_sip_uri (field "peeruri" ev)))
        (some (normalize_sip_uri (field "accountaor" ev)))

  abbrev pub end_record : Stamp → Record
  end_record now = call_end (some now.raw) (some now.iso)

  abbrev pub is_text : String → Option String → Bool
  is_text s none = false
  is_text s (some t) = s == t

  -- The last closing, where the event has an identifier.
  abbrev pub remember : String → Parser → Parser
  remember id p = if is_empty id then p else record p { last_final = some id }

  -- CALL_CLOSED: a call is closed once.
  unfoldable pub on_call_closed : Stamp → Event → Parser → Parser × List Action
  unfolding field closed_record
  on_call_closed now ev p =
      let id = field "id" ev in
      if not (is_empty id) && is_text id p.last_final
      then (p, [])
      else (remember id p, writes (closed_record ev) ∷ writes (end_record now) ∷ pushes ∷ [])

  unfoldable pub on_call : Stamp → Event → Parser → Parser × List Action
  unfolding field started_record on_call_closed
  on_call now ev p =
      if field "type" ev == "CALL_ESTABLISHED"
      then (p, writes (started_record now ev) ∷ [])
      else if not (field "type" ev == "CALL_CLOSED")
      then (p, [])
      else on_call_closed now ev p

  abbrev pub on_event : Stamp → Parser → Option Event → Step
  on_event now p none = none
  on_event now p (some ev) =
      if is_text "MEDIA_STATS" (lookup "type" ev)
      then some (p, writes (media_sample (lookup "seconds" ev) (lookup "video" ev)) ∷ [])
      else if is_text "call" (lookup "class" ev)
      then some (on_call now ev p)
      else none

  abbrev pub on_dtmf : Stamp → Parser → Option String → Step
  on_dtmf now p none = none
  on_dtmf now p (some s) = some (p, writes (dtmf (some now.iso_ms) (some (strip s))) ∷ [])

  -- A line of the event server.
  unfoldable pub event_line : Stamp → String → Parser → Step
  unfolding lookup parse_event on_call dtmf_match strip
  event_line now line p =
      or_else (on_dtmf now p (dtmf_match line)) (on_event now p (parse_event line))

  abbrev pub on_destination : Parser → Option (String × String) → Step
  on_destination p none = none
  on_destination p (some x) =
      some (p, writes (destination (some (append x.0 (append "@" x.1))) (some x.1)) ∷ [])

  -- The table that the next values belong to.
  abbrev pub on_heading : Parser → Option (String × Option ℕ) → Step
  on_heading p none = none
  on_heading p (some (media, none)) =
      if media == "video"
      then some (
        record p { media = some media; stream = some p.next_video; next_video = suc p.next_video },
        [],
      )
      else some (record p { media = some media; stream = none }, [])
  on_heading p (some (media, some n)) =
      if media == "video"
      then some (
        record p { media = some media; stream = some n; next_video = max p.next_video (suc n) },
        [],
      )
      else some (record p { media = some media; stream = none }, [])

  -- fieldMap
  unfoldable pub field_of : String → Option String
  field_of label =
      if label == "packets"
      then some "packets"
      else if label == "errors"
      then some "errors"
      else if label == "pkt.report"
      then some "packetReports"
      else if label == "avg. bitrate"
      then some "avgBitrateKbps"
      else if label == "lost"
      then some "lostPackets"
      else if label == "jitter"
      then some "jitterMs"
      else none

  abbrev pub first : List Number → Option Number
  first [] = none
  first (n ∷ ns) = some n

  abbrev pub next : List Number → Option Number
  next [] = none
  next (n ∷ ns) = first ns

  abbrev pub values : Parser → String → Option String → List Action
  values p rest none = []
  values p rest (some name) =
      writes (stats_value p.media p.stream (some name) (first (numbers rest)) (next (numbers rest)))
      ∷ []

  abbrev pub on_value : Parser → Option (String × String) → Step
  on_value p none = none
  on_value p (some x) =
      if is_text "audio" p.media || is_text "video" p.media
      then some (p, values p x.1 (field_of x.0))
      else none

  abbrev pub on_end : Stamp → Parser → Bool → Step
  on_end now p false = none
  on_end now p true = some (p, writes (end_record now) ∷ pushes ∷ [])

  unfoldable pub is_end : String → Bool
  unfolding contains
  is_end line =
      contains "ua: stop all" line
      || contains "Files sent and removed" line
      || contains "Files moved in log directory" line

  -- A line of baresip.
  unfoldable pub baresip_line : Stamp → String → Parser → Step
  unfolding destination_match heading_match value_match numbers field_of is_end append
  baresip_line now line p = or_else (on_destination p (destination_match line)) (
      or_else (on_heading p (heading_match line))
        (or_else (on_value p (value_match line)) (on_end now p (is_end line))))

  abbrev pub on_start : Stamp → Parser → Bool → Option String → Step
  on_start now p false url = none
  on_start now p true url = some (record p { started = true }, gw_start now (strip (text url)) ∷ [])

  abbrev pub on_encoder : Parser → Option (String × String) → Step
  on_encoder p none = none
  on_encoder p (some x) = some (p, writes (encoder (some x.0) (some x.1)) ∷ [])

  abbrev pub on_text : (Option String → Record) → Parser → Option String → Step
  on_text kind p none = none
  on_text kind p (some s) = some (p, writes (kind (some (strip s))) ∷ [])

  -- What the lines of every process tell.
  unfoldable pub common_line : Stamp → String → Parser → Step
  unfolding contains after_text encoder_match strip
  common_line now line p =
      or_else
        (on_start now p (not p.started && contains "Web browsing URL:" line)
          (after_text "URL:" line))
        (or_else (on_encoder p (encoder_match line)) (
          or_else (on_text room p (after_text "room:" line))
            (on_text browsing p (after_text "browsing:" line))))

  abbrev pub line_if : Bool → Step → Step
  line_if b s = if b then s else none

  abbrev pub or_same : Parser → Step → Parser × List Action
  or_same p none = (p, [])
  or_same p (some x) = x

  -- One line of the log of the process `pref`, which is stripped and not empty.
  unfoldable pub line_step : String → Stamp → String → Parser → Parser × List Action
  unfolding common_line event_line baresip_line
  line_step pref now line p = or_same p (
      or_else (common_line now line p) (
        or_else (line_if (pref == "Event") (event_line now line p))
          (line_if (pref == "Baresip") (baresip_line now line p))))

  -- The lines of a process, one after the other.
  unfoldable pub run_lines : String → List (Stamp × String) → Parser → Parser × List Action
  unfolding line_step
  run_lines pref [] p = (p, [])
  run_lines pref (x ∷ lines) p =
      let here = line_step pref x.0 x.1 p in
      let rest = run_lines pref lines here.0 in (rest.0, here.1 ++ rest.1)
