-- ===== src/History/State.antt =====
-- src/logParse.py: what buildPayloadFromLines holds while it passes over the lines.
use sipmedia_gw.Prelude.{ℕ, String, Bool, false, Option, none, List, [], Dict}
use sipmedia_gw.History.Record.{Directions, Number}

pub record Stats : Type 0 where
  pub tx : Dict Number
  pub rx : Dict Number

abbrev pub no_stats : Stats
no_stats = record { tx = []; rx = [] }

-- What CALL_ESTABLISHED told.
pub record Start : Type 0 where
  pub raw : String
  pub timestamp : String
  pub url : String
  pub agent : String
  pub directions : Directions

pub record End : Type 0 where
  pub raw : String
  pub timestamp : String

-- What the closing of the call told.
pub record Close : Type 0 where
  pub is_final : Bool
  pub call_id : String
  pub peer : String
  pub reason : String
  pub event : String
  pub source : String
  pub destination : String

pub record Place : Type 0 where
  pub app : String
  pub room : String
  pub browsing : String
  pub uri : String
  pub domain : String

-- The tables of figures, the video ones by the number of their stream.
pub record Media : Type 0 where
  pub audio : Stats
  pub video : List (ℕ × Stats)
  pub samples : List (Option Number × Option String)

pub record State : Type 0 where
  pub start : Start
  pub end : End
  pub close : Close
  pub place : Place
  pub media : Media
  pub audio_encoder : Option String
  pub video_encoders : List String
  pub dtmf_events : List (String × String)

abbrev pub initial : State
initial = record {
  start = record { raw = ""; timestamp = ""; url = ""; agent = ""; directions = [] };
  end = record { raw = ""; timestamp = "" };
  close = record {
    is_final = false;
    call_id = "";
    peer = "";
    reason = "";
    event = "";
    source = "";
    destination = "";
  };
  place = record { app = ""; room = ""; browsing = ""; uri = ""; domain = "" };
  media = record { audio = no_stats; video = []; samples = [] };
  audio_encoder = none;
  video_encoders = [];
  dtmf_events = [];
}

abbrev pub set_start : Start → State → State
set_start v s = record s { start = v }

abbrev pub set_end : End → State → State
set_end v s = record s { end = v }

abbrev pub set_place : Place → State → State
set_place v s = record s { place = v }

abbrev pub set_media : Media → State → State
set_media v s = record s { media = v }

abbrev pub set_dtmf : List (String × String) → State → State
set_dtmf v s = record s { dtmf_events = v }

abbrev pub set_close : Close → Media → State → State
set_close v m s = record s { close = v; media = m }

abbrev pub set_encoders : Option String → List String → State → State
set_encoders a v s = record s { audio_encoder = a; video_encoders = v }
