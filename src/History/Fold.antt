-- ===== src/History/Fold.antt =====
-- src/logParse.py: buildPayloadFromLines, the pass over the lines.
use sipmedia_gw.Prelude.{
  ℕ, String, ◌==◌, Bool, true, false, not, ◌&&◌, ◌||◌, Option, none, some, List, [], ◌∷◌, ◌++◌,
  Dict, insert, eqb, if◌then◌else◌,
}
use sipmedia_gw.Text.{is_empty, strip, lower}
use sipmedia_gw.SipUri.{normalize_sip_uri}
use sipmedia_gw.History.State.{
  Stats, no_stats, Start, End, Close, Media, State, set_start, set_end, set_close, set_place,
  set_media, set_encoders, set_dtmf,
}
use sipmedia_gw.History.Record.{
  Directions, Number, Record, unreadable, other, main_app, call_start, call_end, encoder, room,
  browsing, destination, call_closed, dtmf, media_sample, stats_value,
}

-- x or ""
abbrev pub text : Option String → String
text none = ""
text (some s) = s

-- x or y
abbrev pub either : String → String → String
either x y = elim (is_empty x) [ true ↦ y | false ↦ x ]

abbrev is_given : Option String → Bool
is_given none = false
is_given (some s) = not (is_empty s)

-- The value where it is given and not empty, else the one that is held.
abbrev pub given_or : Option String → String → String
given_or none held = held
given_or (some s) held = either s held

abbrev dirs_or : Option Directions → Directions → Directions
dirs_or none held = held
dirs_or (some []) held = held
dirs_or (some (d ∷ ds)) held = d ∷ ds

unfoldable pub on_start :
    Option String
    → Option String
    → Option String
    → Option String
    → Option Directions
    → Start
    → Start
on_start raw timestamp url agent dirs s = record {
  raw = either s.raw (text raw);
  timestamp = either s.timestamp (text timestamp);
  url = given_or url s.url;
  agent = given_or agent s.agent;
  directions = dirs_or dirs s.directions;
}

unfoldable pub on_end : Option String → Option String → End → End
on_end raw timestamp e = record {
  raw = given_or raw e.raw;
  timestamp = given_or timestamp e.timestamp;
}

abbrev stripped_or : Option String → String → String
stripped_or v held = if is_given v then strip (text v) else held

abbrev uri_or : Option String → String → String
uri_or v held = if is_given v then normalize_sip_uri (text v) else held

-- What a record of the type call_closed leaves of the earlier ones, if it counts at all.
unfoldable pub on_closed :
    String
    → Option String
    → Option String
    → Option String
    → Option String
    → Option String
    → Close
    → Close
unfolding strip normalize_sip_uri
on_closed event id peer reason source dest c = record {
  is_final = c.is_final || (event == "CALL_CLOSED");
  call_id = given_or id c.call_id;
  peer = strip (given_or peer c.peer);
  reason = given_or reason c.reason;
  event = either event c.event;
  source = uri_or source c.source;
  destination = uri_or dest c.destination;
}

abbrev pub is_none {ℓ} : {A : Type ℓ} → List A → Bool
is_none [] = true
is_none (x ∷ xs) = false

-- The tables that were printed before the call closed belong to readings, where there are any.
abbrev pub closed_media : Bool → Media → Media
closed_media is_final m = record {
  audio = m.audio;
  video = if is_final && not (is_none m.samples) then [] else m.video;
  samples = m.samples;
}

abbrev put_number : String → Option Number → Dict Number → Dict Number
put_number field none d = d
put_number field (some v) d = insert field v d

unfoldable pub put_stats : String → Option Number → Option Number → Stats → Stats
unfolding insert
put_stats field tx rx st = record { tx = put_number field tx st.tx; rx = put_number field rx st.rx }

-- media.videoStreams.setdefault(n, …), changed.
unfoldable pub at_stream : ℕ → (Stats → Stats) → List (ℕ × Stats) → List (ℕ × Stats)
at_stream n f [] = (n, f no_stats) ∷ []
at_stream n f ((m, st) ∷ v) =
    let rest = at_stream n f v in if eqb m n then (m, f st) ∷ v else (m, st) ∷ rest

abbrev pub number_of : Option ℕ → ℕ
number_of none = 0
number_of (some n) = n

unfoldable pub on_stats : String → Option ℕ → String → Option Number → Option Number → Media → Media
unfolding put_stats at_stream
on_stats kind stream field tx rx m =
    let video = at_stream (number_of stream) (put_stats field tx rx) m.video in
    if is_empty kind || is_empty field
    then m
    else if kind == "audio"
    then record { audio = put_stats field tx rx m.audio; video = m.video; samples = m.samples }
    else if kind == "video"
    then record { audio = m.audio; video = video; samples = m.samples }
    else m

unfoldable pub on_encoder : String → String → State → State
on_encoder kind value s =
    if kind == "audio"
    then set_encoders (some value) s.video_encoders s
    else if kind == "video"
    then set_encoders s.audio_encoder (s.video_encoders ++ (value ∷ [])) s
    else s

-- One line.
unfoldable pub step : Record → State → State
unfolding on_start on_end on_closed on_stats on_encoder strip lower
step unreadable s = s
step other s = s
step (main_app app) s = set_place (record s.place { app = strip app }) s
step (call_start raw timestamp url agent dirs) s =
    set_start (on_start raw timestamp url agent dirs s.start) s
step (call_end raw timestamp) s = set_end (on_end raw timestamp s.end) s
step (encoder kind value) s = on_encoder (strip (text kind)) (strip (text value)) s
step (room v) s = set_place (record s.place { room = strip (text v) }) s
step (browsing v) s = set_place (record s.place { browsing = strip (text v) }) s
step (destination uri domain) s =
    set_place
      (record s.place {
        uri = stripped_or uri s.place.uri;
        domain = stripped_or domain s.place.domain;
      })
      s
step (call_closed event id peer reason source dest) s =
    let kind = strip (text event) in
    if s.close.is_final && not (kind == "CALL_CLOSED")
    then s
    else set_close (on_closed kind id peer reason source dest s.close)
        (closed_media (kind == "CALL_CLOSED") s.media) s
step (dtmf timestamp input) s =
    let key = strip (text input) in
    if is_empty (text timestamp) || is_empty key
    then s
    else set_dtmf (s.dtmf_events ++ ((text timestamp, key) ∷ [])) s
step (media_sample seconds video) s =
    set_media
      (record {
        audio = s.media.audio;
        video = [];
        samples = s.media.samples ++ ((seconds, video) ∷ []);
      })
      s
step (stats_value kind stream field tx rx) s =
    set_media (on_stats (lower (strip (text kind))) stream (strip (text field)) tx rx s.media) s

unfoldable pub run : List Record → State → State
unfolding step
run [] s = s
run (r ∷ rs) s = run rs (step r s)
