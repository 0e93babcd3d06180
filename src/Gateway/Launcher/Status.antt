-- ===== src/Gateway/Launcher/Status.antt =====
-- HTTPLauncher.py: get_status, what the launcher tells of a gateway.
use sipmedia_gw.Prelude.{
  ℕ, ◌+◌, ◌*◌, ◌/◌, ◌%◌, String, ◌==◌, Bool, true, false, ◌&&◌, ◌||◌, Option, none, some, List, [],
  ◌∷◌, Dict, lookup, insert, select, length, eqb, ltb, if◌then◌else◌,
}
use sipmedia_gw.Text.{append, is_empty, strip, has_suffix, contains, show}
use sipmedia_gw.Outcome.{Outcome, ok, crash, ◌>>=◌}
use sipmedia_gw.Gateway.Names.{parse_display_name}
use sipmedia_gw.Gateway.Launcher.{or_empty, value_error}

-- A value of the history, an object with its fields or anything else.
pub data Value : Type 0 where
  object : Dict String → Value
  other : Value

-- What the commands of a host print: the status of a project, the name of its "gw" container, what
-- a script prints in a container, and the lines of its history file, `none` where there is none.
pub record Host : Type 0 where
  pub project_status : String → Option String
  pub container : String → Option String
  pub runs : String → String → String
  pub words : String → List String
  pub history_of : String → Option (Dict (List Value))

-- f"{p / n * 100:.0f}%"
unfoldable pub percent : ℕ → ℕ → String
unfolding show append
percent p n =
    let whole = (100 * p) / n in
    let over = (100 * p) % n in
    let up = ltb n (2 * over) || (eqb n (2 * over) && eqb (whole % 2) 1) in
    append (show (if up then whole + 1 else whole)) "%"

-- The progress of the transcript, from the names of the recordings.
unfoldable pub processed : List String → String
unfolding has_suffix select percent
processed [] = "0%"
processed (name ∷ names) =
    percent (length (select (has_suffix ".processed.mp4") (name ∷ names))) (length (name ∷ names))

abbrev pub last_value : List Value → Option Value
last_value [] = none
last_value (v ∷ []) = some v
last_value (v ∷ w ∷ vs) = last_value (w ∷ vs)

-- history[key][-1], where the history has the key.
abbrev pub values_last : Option (List Value) → Option Value
values_last none = none
values_last (some vs) = last_value vs

unfoldable pub latest : String → Dict (List Value) → Option Value
unfolding lookup
latest key history = values_last (lookup key history)

-- The peer and the start of a call, from the record of its start.
unfoldable pub with_peer : Option Value → Dict String → Dict String
unfolding insert lookup parse_display_name
with_peer none resp = resp
with_peer (some other) resp = resp
with_peer (some (object call)) resp = insert "call_started" (or_empty (lookup "timestamp" call)) (
    insert "peer_name" (parse_display_name (or_empty (lookup "peerDisplayName" call)))
      (insert "peer_uri" (or_empty (lookup "sourceURI" call)) resp))

abbrev pub value_in : Option String → Outcome String
value_in none = crash
value_in (some s) = ok s

-- resp[key] = history[key][-1]['value'], where the history has the key.
abbrev pub with_value_of : String → Option Value → Dict String → Outcome (Dict String)
with_value_of key none resp = ok resp
with_value_of key (some other) resp = crash
with_value_of key (some (object v)) resp =
    value_in (lookup "value" v) >>= (λ s. ok (insert key s resp))

abbrev pub has_key : String → Dict (List Value) → Bool
has_key key history = elim (lookup key history) [ none ↦ false | some vs ↦ true ]

-- What the history adds to a status.
unfoldable pub with_history : Dict (List Value) → Dict String → Outcome (Dict String)
unfolding insert lookup with_peer latest
with_history history resp =
    let blank = insert "call_started" "" (
      insert "peer_name" ""
        (insert "peer_uri" "" (insert "room" "" (insert "browsing" "" resp)))) in
    let peer = with_peer (latest "call_start" history) blank in
    let placed =
      with_value_of "room" (latest "room" history) peer
      >>= with_value_of "browsing" (latest "browsing" history) in
    if has_key "gw_start" history then placed else ok peer

abbrev pub insert_if : String → String → Dict String → Dict String
insert_if key s resp = if is_empty s then resp else insert key s resp

-- The scripts that are run in the container; of the first one, which prints how long a recording
-- has run, only the beginning.
abbrev pub elapsed_script : String
elapsed_script = "pgrep -o ffmpeg"

abbrev pub transcript_script : String
transcript_script = "echo $WITH_TRANSCRIPT"

abbrev pub recordings_script : String
recordings_script = "ls /var/recording/*.mp4"

abbrev pub room_script : String
room_script = "echo $PHYSICAL_ROOM"

-- What the scripts add to a status.
unfoldable pub with_scripts : Host → String → Dict String → Dict String
unfolding insert strip processed
with_scripts host name resp =
    let elapsed = insert_if "recording_duration" (strip (host.runs name elapsed_script)) resp in
    let progress =
      if strip (host.runs name transcript_script) == "true"
      then insert "transcript_progress" (processed (host.words (host.runs name recordings_script)))
          elapsed
      else elapsed in
    insert_if "physical_room" (strip (host.runs name room_script)) progress

abbrev pub history_or_crash : Option (Dict (List Value)) → Dict String → Outcome (Dict String)
history_or_crash none resp = crash
history_or_crash (some history) resp = with_history history resp

abbrev pub status_in : Host → String → Option String → Outcome (Dict String)
status_in host gw_id none = ok (("gw_state", "down") ∷ [])
status_in host gw_id (some name) =
    history_or_crash (host.history_of name)
      (with_scripts host name (("gw_state", "up") ∷ ("gw_id", gw_id) ∷ []))

abbrev pub status_of : Host → String → Option String → Outcome (Dict String)
status_of host gw_id none = value_error "Gateway not found"
status_of host gw_id (some status) =
    if contains "exited" status
    then ok (("gw_state", "down") ∷ ("detail", "exited") ∷ [])
    else status_in host gw_id (host.container gw_id)

-- get_status, for a gateway.
unfoldable pub get_status : Host → String → Outcome (Dict String)
unfolding contains with_scripts with_history
get_status host gw_id = status_of host gw_id (host.project_status gw_id)
