-- ===== src/Gateway/Tests.antt =====
-- The gateway's parts on concrete inputs.
use Prim.Native.Nat.{min}
use sipmedia_gw.Prelude.{
  ℕ, String, ◌≡◌, refl, true, false, arith, none, some, List, [], ◌∷◌, Dict, lookup, insert,
}
use sipmedia_gw.Text.{
  append, strip, lstrip, rstrip, is_space, has_char, has_prefix, strip_prefix, contains, before,
  after, first_chars, skip_chars, show, digits, parse_nat,
}
use sipmedia_gw.Proxy.Pool.Answer.{update_progress}
use sipmedia_gw.Gateway.Names.{size, with_room, without_quotes, int_of, decode, parse_display_name}
use sipmedia_gw.Gateway.Events.{Ivr, Event, event_handler, get_events, on_incoming}
use sipmedia_gw.Gateway.Events.Slides.{Kept, get_events-Kept, sharing, alternates}
use sipmedia_gw.Gateway.Events.Callers.{Expected, event_handler-Expected, event_handler-with_room}
use sipmedia_gw.Gateway.Netstring.{encode, read_rest, get_status, from_digit, data_len}
use sipmedia_gw.Gateway.Netstring.Utf8.{
  decode as decode_bytes, decode_from, char_of, lead, is_ascii,
}
use sipmedia_gw.Gateway.Netstring.Framing.{full, read_rest-enough}
use sipmedia_gw.Gateway.Netstring.Messages.{get_status-encode}
use sipmedia_gw.Gateway.Launcher.{StartRequest, start_args}
use sipmedia_gw.Gateway.Launcher.Arguments.{read_options, unset, wanted, read_options-start_args}
use sipmedia_gw.Gateway.Launcher.Status.{
  get_status as host_status, Host, Value, object, latest, with_peer, with_history, with_scripts,
}
use sipmedia_gw.Gateway.Launcher.Reports.{Shown, scalars, get_status-Shown}

twelve : decode "12-3.azertyuiopTOTO" ≡ (some "3.azertyuiop", "TOTO")
unfolding decode int_of has_char before after first_chars skip_chars parse_nat strip lstrip rstrip
    is_space
twelve = refl

abbrev idle : Ivr
idle = record {
  mixed_id = none;
  name = none;
  audio_only = false;
  browsers = 0;
  in_meeting = false;
  shared = false;
  typed = [];
  chat = [];
}

abbrev slides : Event
slides = ("type", "VIDEO_DISP") ∷ ("param", "VIDEO_SLIDES_START") ∷ []

get_events-Kept_example : Kept (get_events "" (slides ∷ slides ∷ []) idle).1
unfolding lookup sharing alternates
get_events-Kept_example =
    get_events-Kept "" (slides ∷ slides ∷ []) idle (refl, (refl, _)) (refl, refl)

abbrev incoming : Event
incoming = ("type", "CALL_INCOMING") ∷ ("peeruri", "sip:a@b.org") ∷ []

event_handler-Expected_example : Expected "sip:a@b.org" incoming
unfolding event_handler on_incoming lookup
event_handler-Expected_example = event_handler-Expected "sip:a@b.org" incoming idle idle refl

abbrev established : Event
established =
    ("type", "CALL_ESTABLISHED")
    ∷ ("remotevideodir", "sendrecv")
    ∷ ("peerdisplayname", "4-3.abBob")
    ∷ []

event_handler-with_room_example :
    event_handler "" established idle
    ≡ some (
      none,
      record idle { mixed_id = some "3.ab"; name = some "Bob"; audio_only = false; browsers = 1 },
    )
unfolding lookup with_room size show digits append without_quotes
event_handler-with_room_example =
    event_handler-with_room "" "3.ab" "\"Bob\"" "sendrecv" established idle refl refl refl refl

abbrev event_text : String
event_text = "{\"event\":true}"

get_status-encode_example :
    get_status full (append (encode event_text) (encode event_text))
    ≡ (encode event_text, encode event_text)
unfolding encode size show digits append has_char first_chars is_ascii
get_status-encode_example = get_status-encode event_text (encode event_text) refl (omega arith) refl

read_rest-enough_example : read_rest full 4 3 "a" "bcdef" ≡ read_rest full 9 3 "a" "bcdef"
read_rest-enough_example = read_rest-enough full 4 9 3 "a" "bcdef" (omega arith) (omega arith)

-- A socket that gives four bytes at most.
abbrev slow : ℕ → String → String × String
slow n s = (first_chars (min n 4) s, skip_chars (min n 4) s)

-- What is read from such a socket is cut short.
cut_short : get_status slow "14:{\"event\":true}," ≡ ("14:{\"eve", "nt\":true},")
unfolding get_status from_digit data_len read_rest decode_bytes decode_from is_ascii size append
    has_char before int_of strip lstrip rstrip is_space parse_nat first_chars skip_chars
cut_short = refl

-- The two bytes of a letter with an accent are decoded together, and one of them alone is refused.
accent : decode_bytes "Ã©" ≡ some "é"
unfolding decode_bytes decode_from char_of lead
accent = refl

half : decode_bytes "Ã" ≡ none
unfolding decode_bytes decode_from lead
half = refl

abbrev request : StartRequest
request = record {
  room = "0";
  gw_id = "gw0";
  main_app = "recording";
  browsing_name = none;
  from_id = some "user1";
  prefix = some "";
  rtmp_dst = none;
  dial = none;
  loop = some true;
  transcript = some "true";
  audio_only = none;
  api_key = none;
  recipient_mail = some "a@b.org";
}

read_options-start_args_example :
    (read_options (start_args request) unset ≡ some (wanted request))
    × (start_args (record request { from_id = none }) ≡ start_args request)
read_options-start_args_example = read_options-start_args request none

abbrev call : Dict String
call =
    ("timestamp", "2026-01-01T10:00:00Z")
    ∷ ("sourceURI", "sip:a@b.org")
    ∷ ("peerDisplayName", "1-0TOTO")
    ∷ []

abbrev history : Dict (List Value)
history = ("call_start", object call ∷ []) ∷ []

abbrev host : Host
host = record {
  project_status = λ gw. some "running(1)";
  container = λ gw. some "gw0";
  runs = λ name script. "";
  words = λ s. [];
  history_of = λ name. some history;
}

abbrev told : Dict String
told =
    ("gw_state", "up")
    ∷ ("gw_id", "gw0")
    ∷ ("browsing", "")
    ∷ ("room", "")
    ∷ ("peer_uri", "sip:a@b.org")
    ∷ ("peer_name", "TOTO")
    ∷ ("call_started", "2026-01-01T10:00:00Z")
    ∷ []

get_status-Shown_example : Shown call (update_progress [] (scalars told))
unfolding contains has_prefix strip_prefix latest lookup insert with_scripts with_history with_peer
    strip lstrip rstrip is_space parse_display_name int_of has_char before after skip_chars
    parse_nat host_status
get_status-Shown_example =
    get_status-Shown host "gw0" "running(1)" "gw0" history call told [] refl refl refl refl refl
      refl
