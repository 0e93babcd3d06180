-- ===== src/History/Payload.antt =====
-- src/logParse.py: buildPayloadFromLines, the payload that the pass ends in.
use sipmedia_gw.Prelude.{
  ℕ, ◌+◌, ◌-◌, ◌*◌, ◌/◌, ◌%◌, String, Bool, true, false, Option, none, some, List, [], ◌∷◌, ltb,
  leb, if◌then◌else◌,
}
use sipmedia_gw.Text.{append, is_empty, show, strip}
use sipmedia_gw.SipUri.{normalize_sip_uri, strip_sip_prefix, split_uri}
use sipmedia_gw.History.Record.{Directions, Number, Record}
use sipmedia_gw.History.State.{Stats, Start, End, State, initial}
use sipmedia_gw.History.Fold.{run}

-- What the standard library reads: the instant of an ISO timestamp in microseconds, `none` for one
-- that cannot be read, and the first value of a parameter of a URL's query, stripped.
pub record Reading : Type 0 where
  pub parse_iso : String → Option ℕ
  pub query_value : String → String → String

pub record Total : Type 0 where
  pub seconds : ℕ
  pub milliseconds : ℕ
  pub raw : String

-- Two digits at least.
unfoldable pub padded : ℕ → String
unfolding append show
padded n = if ltb n 10 then append "0" (show n) else show n

unfoldable pub clock : ℕ → String
unfolding padded append
clock sec =
    append (padded (sec / 3600))
      (append ":" (append (padded ((sec % 3600) / 60)) (append ":" (padded (sec % 60)))))

abbrev pub no_time : Total
no_time = record { seconds = 0; milliseconds = 0; raw = "00:00:00" }

unfoldable pub total_time : Option ℕ → Option ℕ → Total
unfolding clock
total_time none end = no_time
total_time (some start) none = no_time
total_time (some start) (some end) =
    let sec = (end - start) / 1000000 in
    if leb start end
    then record { seconds = sec; milliseconds = sec * 1000; raw = clock sec }
    else no_time

-- sorted(…) by the number of the stream.
unfoldable pub place_stream : ℕ × Stats → List (ℕ × Stats) → List (ℕ × Stats)
place_stream x [] = x ∷ []
place_stream x (y ∷ ys) =
    let rest = place_stream x ys in if leb x.0 y.0 then x ∷ y ∷ ys else y ∷ rest

unfoldable pub sorted : List (ℕ × Stats) → List (ℕ × Stats)
unfolding place_stream
sorted [] = []
sorted (x ∷ xs) = place_stream x (sorted xs)

unfoldable pub renumber : ℕ → List (ℕ × Stats) → List (ℕ × Stats)
renumber n [] = []
renumber n (x ∷ xs) = (n, x.1) ∷ renumber (n + 1) xs

abbrev has_any {ℓ} : {A : Type ℓ} → List A → Bool
has_any [] = false
has_any (x ∷ xs) = true

-- The streams of the payload: the call's own, numbered anew where there are readings.
unfoldable pub video_streams : State → List (ℕ × Stats)
unfolding sorted renumber
video_streams s =
    if has_any s.media.samples then renumber 0 (sorted s.media.video) else sorted s.media.video

-- The payload's "call", without the versions of the gateway.
pub record Call : Type 0 where
  pub main_app : String
  pub call_url : String
  pub browsing : String
  pub room : String
  pub room_type : String
  pub call_start : Start
  pub call_end : End
  pub total : Total
  pub call_id : String
  pub source_uri : String
  pub source_name : String
  pub source_number : String
  pub source_domain : String
  pub destination_uri : String
  pub destination_room_name : String
  pub destination_domain : String
  pub destination_domain_raw : String
  pub destination_gw : String
  pub destination_domain_ip : String
  pub peer_display_name : String
  pub close_reason : String
  pub last_event_type : String
  pub peer_user_agent : String
  pub audio_encoder : Option String
  pub video_encoders : List String
  pub media_dir : Directions
  pub dtmf_events : List (String × String)
  pub audio : Stats
  pub video : List (ℕ × Stats)
  pub samples : List (Option Number × Option String)

abbrev detail : Reading → String → String → String
detail io key url = elim (is_empty (strip url)) [
  | true ↦ ""
  | false ↦ io.query_value key (strip url)
]

unfoldable pub payload : Reading → State → Call
unfolding total_time video_streams strip normalize_sip_uri strip_sip_prefix split_uri
payload io s =
    let source = normalize_sip_uri s.close.source in
    let sides = split_uri source in
    let dest = split_uri s.close.destination in
    record {
      main_app = s.place.app;
      call_url = s.start.url;
      browsing = s.place.browsing;
      room = s.place.room;
      room_type = "IVR";
      call_start = s.start;
      call_end = s.end;
      total = total_time (io.parse_iso s.start.timestamp) (io.parse_iso s.end.timestamp);
      call_id = s.close.call_id;
      source_uri = strip_sip_prefix source;
      source_name = detail io "displayName" s.start.url;
      source_number = sides.0;
      source_domain = sides.1;
      destination_uri = strip_sip_prefix s.place.uri;
      destination_room_name = detail io "mixedId" s.start.url;
      destination_domain = s.place.domain;
      destination_domain_raw = strip_sip_prefix s.close.destination;
      destination_gw = dest.0;
      destination_domain_ip = dest.1;
      peer_display_name = s.close.peer;
      close_reason = s.close.reason;
      last_event_type = s.close.event;
      peer_user_agent = s.start.agent;
      audio_encoder = s.audio_encoder;
      video_encoders = s.video_encoders;
      media_dir = s.start.directions;
      dtmf_events = s.dtmf_events;
      audio = s.media.audio;
      video = video_streams s;
      samples = s.media.samples;
    }

unfoldable pub build_payload : Reading → List Record → Call
unfolding run payload
build_payload io lines = payload io (run lines initial)
