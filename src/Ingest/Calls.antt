-- ===== src/Ingest/Calls.antt =====
-- manager/ingest/mapping.py: callRow and mediaDetails, the row of a call.
pub mod Texts
use Prim.Native.String.{[], ◌∷◌}
use Prim.Native.Char.{code, Char}
use sipmedia_gw.Prelude.{
  ℕ, zero, suc, ◌/◌, String, Bool, true, false, not, ◌&&◌, ◌||◌, Option, none, some, List, [], ◌∷◌,
  ◌++◌, Dict, lookup, leb, eqb, if◌then◌else◌,
}
use sipmedia_gw.Text.{strip, is_empty, is_space, skip_chars}
use sipmedia_gw.Outcome.{Outcome, ok, refuse, crash}
use sipmedia_gw.Ingest.Values.{
  ℤ, pos, negsuc, Json, null, bool, whole, real, text, list, object, Items, no_items, item, Fields,
  no_fields, field, get, Floats, int_of, obj,
}
use sipmedia_gw.Ingest.Pictures.{Numbers, Summary, sample_summary}

-- s or None
abbrev pub or_none : String → Option String
or_none s = if is_empty s then none else some s

abbrev pub between : ℕ → ℕ → Char → Bool
between low high c = leb low (code c) && leb (code c) high

-- [A-Za-z0-9], and with . _ -
abbrev pub is_alnum : Char → Bool
is_alnum c = between 65 90 c || between 97 122 c || between 48 57 c

unfoldable pub are_key_chars : String → Bool
are_key_chars [] = true
are_key_chars (c ∷ s) =
    (is_alnum c || eqb (code c) 46 || eqb (code c) 95 || eqb (code c) 45) && are_key_chars s

-- PLATFORM_KEY
unfoldable pub is_platform_key : String → Bool
unfolding are_key_chars skip_chars
is_platform_key [] = false
is_platform_key (c ∷ s) = is_alnum c && are_key_chars s && is_empty (skip_chars 39 s)

unfoldable pub first_word : String → String
unfolding is_space
first_word [] = []
first_word (c ∷ s) = let rest = first_word s in if is_space c then [] else c ∷ rest

-- milliseconds // 1000
abbrev pub thousandth : Option ℤ → Option ℤ
thousandth none = none
thousandth (some (pos n)) = some (pos (n / 1000))
thousandth (some (negsuc n)) = some (negsuc (n / 1000))

abbrev pub or_else : Option ℤ → Option ℤ → Option ℤ
or_else none other = other
or_else (some z) other = some z

abbrev pub first_item : Json → Json
first_item (list (item v xs)) = v
first_item (list no_items) = null
first_item null = null
first_item (bool b) = null
first_item (whole z) = null
first_item (real s) = null
first_item (text s) = null
first_item (object d) = null

-- The columns of a call with a text, in the order of the code, the others, and the summary.
pub record CallRow (F : Type 0) : Type 0 where
  pub texts : Dict (Option String)
  pub call_start : Option String
  pub call_end : Option String
  pub duration_s : Option ℤ
  pub occupancy_s : Option ℤ
  pub dtmf_events : Json
  pub media_direction : Option (Dict String)
  pub summary : Summary F

-- `instant` is what fromisoformat reads from a text, in UTC where it says no zone.
module _ {F : Type 0} (io : Floats) (num : Numbers F) (instant : String → Option String) where
  -- _text
  unfoldable pub text_of : Json → Option String
  unfolding strip
  text_of null = none
  text_of (text s) = or_none (strip s)
  text_of (bool b) = or_none (strip (num.spelled (bool b)))
  text_of (whole z) = or_none (strip (num.spelled (whole z)))
  text_of (real s) = or_none (strip (num.spelled (real s)))
  text_of (list xs) = or_none (strip (num.spelled (list xs)))
  text_of (object d) = or_none (strip (num.spelled (object d)))

  abbrev pub if_key : Option String → Option String
  if_key none = none
  if_key (some s) = if is_platform_key s then some s else none

  abbrev pub platform_of : Json → Option String
  platform_of v = if_key (text_of v)

  abbrev pub word_of : Option String → Option String
  word_of none = none
  word_of (some s) = some (first_word s)

  -- _codec
  abbrev pub codec_of : Json → Option String
  codec_of v = word_of (text_of v)

  abbrev pub instant_of : Option String → Option String
  instant_of none = none
  instant_of (some s) = instant s

  -- _ts
  abbrev pub ts_of : Json → Option String
  ts_of v = instant_of (text_of v)

  abbrev pub and_text : String → Option String → Dict String → Dict String
  and_text key none rest = rest
  and_text key (some s) rest = (key, s) ∷ rest

  unfoldable pub clean_fields : Fields → Dict String
  unfolding text_of
  clean_fields no_fields = []
  clean_fields (field key v d) = and_text key (text_of v) (clean_fields d)

  abbrev pub some_if_any : Dict String → Option (Dict String)
  some_if_any [] = none
  some_if_any (entry ∷ d) = some (entry ∷ d)

  -- _direction, where {} says no more than what is no object.
  abbrev pub direction_of : Json → Option (Dict String)
  direction_of v = some_if_any (clean_fields (obj v))

  abbrev pub video_of : Option (Dict String) → Option String
  video_of none = none
  video_of (some d) = lookup "video" d

  -- v or []
  abbrev pub or_list : Json → Json
  or_list null = list no_items
  or_list (bool b) = if b then bool b else list no_items
  or_list (whole (pos zero)) = list no_items
  or_list (whole z) = whole z
  or_list (real s) = if io.is_zero s then list no_items else real s
  or_list (text s) = if is_empty s then list no_items else text s
  or_list (list xs) = list xs
  or_list (object no_fields) = list no_items
  or_list (object (field k v d)) = object (field k v d)

  abbrev pub column : String → String → Fields → String × Option String
  column name key d = (name, text_of (get key d))

  -- The texts of mediaDetails.
  unfoldable pub media_texts : Fields → Dict (Option String)
  unfolding get text_of first_word
  media_texts call =
      let details = obj (get "details" call) in
      let gateway = obj (get "gateway" call) in
      let encoders = obj (get "encoders" details) in
      column "peer_user_agent" "peerUserAgent" details
      ∷ ("audio_codec", codec_of (get "audio" encoders))
      ∷ ("video_codec", codec_of (first_item (get "video" encoders)))
      ∷ ("video_encoder", text_of (first_item (get "video" encoders)))
      ∷ column "gw_version" "gwVersion" gateway
      ∷ column "baresip_version" "baresipVersion" gateway
      ∷ column "baresip_patch" "baresipPatch" gateway
      ∷ column "chromium_version" "chromiumVersion" gateway
      ∷ []

  -- The texts that callRow picks itself.
  unfoldable pub call_texts : Fields → Dict (Option String)
  unfolding get text_of is_platform_key
  call_texts call =
      let details = obj (get "details" call) in
      let source = obj (get "source" details) in
      let destination = obj (get "destination" details) in
      column "call_id" "callId" details
      ∷ column "gw_alias" "destinationGw" destination
      ∷ column "gw_id" "gwId" call
      ∷ column "gw_host" "destinationDomainIp" destination
      ∷ column "main_app" "mainApp" call
      ∷ ("platform", platform_of (get "browsing" call))
      ∷ column "room" "room" call
      ∷ column "call_url" "callUrl" call
      ∷ column "source_uri" "sourceURI" source
      ∷ column "source_name" "sourceName" source
      ∷ column "source_number" "sourceNumber" source
      ∷ column "source_domain" "sourceDomain" source
      ∷ column "destination_uri" "destinationURI" destination
      ∷ column "destination_room" "destinationRoomName" destination
      ∷ column "destination_domain" "destinationDomain" destination
      ∷ column "peer_display_name" "peerDisplayName" destination
      ∷ column "close_reason" "closeReason" details
      ∷ column "last_event_type" "lastEventType" details
      ∷ []

  unfoldable pub seconds_of : Fields → Option ℤ
  unfolding get int_of
  seconds_of total =
      or_else (int_of io (get "seconds" total)) (thousandth (int_of io (get "milliseconds" total)))

  unfoldable pub row_of : Fields → Summary F → CallRow F
  unfolding get call_texts media_texts seconds_of clean_fields
  row_of call summary =
      let session = obj (get "callSession" call) in
      let seconds = seconds_of (obj (get "totalTime" session)) in
      record {
        texts = call_texts call ++ media_texts call;
        call_start = ts_of (get "timestamp" (obj (get "callStart" session)));
        call_end = ts_of (get "timestamp" (obj (get "callEnd" session)));
        duration_s = seconds;
        occupancy_s = seconds;
        dtmf_events = or_list (get "dtmfEvents" call);
        media_direction = direction_of (get "mediaDir" (obj (get "details" call)));
        summary = summary;
      }

  unfoldable pub row_of_call : Json → Outcome (CallRow F)
  unfolding get sample_summary clean_fields row_of
  row_of_call (object call) =
      elim (sample_summary io num (get "samples" (obj (get "mediaStats" call)))
        (video_of (direction_of (get "mediaDir" (obj (get "details" call)))))) [
          | none ↦ crash
          | some summary ↦ ok (row_of call summary)
        ]
  row_of_call null = refuse 400 "missing 'call' object"
  row_of_call (bool b) = refuse 400 "missing 'call' object"
  row_of_call (whole z) = refuse 400 "missing 'call' object"
  row_of_call (real s) = refuse 400 "missing 'call' object"
  row_of_call (text s) = refuse 400 "missing 'call' object"
  row_of_call (list xs) = refuse 400 "missing 'call' object"

  -- callRow; the route turns a ValueError into a 400.
  unfoldable pub call_row : Json → Outcome (CallRow F)
  unfolding get row_of_call
  call_row (object payload) = row_of_call (get "call" payload)
  call_row null = refuse 400 "payload is not an object"
  call_row (bool b) = refuse 400 "payload is not an object"
  call_row (whole z) = refuse 400 "payload is not an object"
  call_row (real s) = refuse 400 "payload is not an object"
  call_row (text s) = refuse 400 "payload is not an object"
  call_row (list xs) = refuse 400 "payload is not an object"
