-- ===== src/Proxy/Pool/Answer.antt =====
-- deploy/proxyAPI/proxy.py: what a gateway answers, and the update of its entry from it.
use sipmedia_gw.Prelude.{
  ℕ, String, ◌≡◌, refl, ap, ◌∙◌, false, Dict, insert, ◌==◌, arith, if◌then◌else◌,
}
use sipmedia_gw.Proxy.Entry.{Scalar, null, str, truthy, render, field, is_text}
use sipmedia_gw.Proxy.Entry.State.{field-insert}

-- The "data" of an answer: absent, an object, or anything else.
pub data Payload : Type 0 where
  absent malformed : Payload
  fields : Dict Scalar → Payload

-- What the HTTP client gives: a read timeout, any other failure, a body that is no JSON object, or
-- the code, the "status" and the "data" of one.
pub data Reply : Type 0 where
  timeout broken garbled : Reply
  answer : ℕ → Scalar → Payload → Reply

abbrev pub write_if : String → Scalar → Dict Scalar → Dict Scalar
write_if k v gw = if truthy v then insert k (str (render v)) gw else gw

-- f"{v}" if v else None
abbrev pub text_or_null : Scalar → Scalar
text_or_null v = if truthy v then str (render v) else null

abbrev with_state : Scalar → Dict Scalar → Dict Scalar
with_state state gw =
    if is_text "up" state
    then insert "gw_state" (str "started") gw
    else if is_text "down" state
    then insert "gw_state" (str "stopped") gw
    else gw

-- The entry that updateProgressInfo writes.
unfoldable pub update_progress : Dict Scalar → Dict Scalar → Dict Scalar
unfolding truthy render
update_progress gw info =
    let durations =
      write_if "media_duration" (field "streaming_duration" info)
        (write_if "media_duration" (field "recording_duration" info) gw) in
    let progress = write_if "transcript_progress" (field "transcript_progress" info) durations in
    let stated = with_state (field "gw_state" info) progress in
    insert "call_started" (text_or_null (field "call_started" info)) (
      insert "peer_name" (text_or_null (field "peer_name" info)) (
        insert "peer_uri" (text_or_null (field "peer_uri" info)) (
          insert "browsing" (text_or_null (field "browsing" info)) (
            insert "physical_room" (text_or_null (field "physical_room" info))
              (insert "room" (text_or_null (field "room" info)) stated)))))

field-write_if :
    (k j : String) (v : Scalar) (gw : Dict Scalar)
    → (k == j) ≡ false
    → field j (write_if k v gw) ≡ field j gw
field-write_if k j v gw apart = ground (arith, field-insert k j (str (render v)) gw)

-- The state that a gateway's report leaves.
abbrev pub reported_state : Scalar → Scalar → Scalar
reported_state report old =
    if is_text "up" report
    then str "started"
    else if is_text "down" report
    then str "stopped"
    else old

field-with_state :
    (state : Scalar) (gw : Dict Scalar)
    → field "gw_state" (with_state state gw) ≡ reported_state state (field "gw_state" gw)
field-with_state state gw = ground (
  arith,
  field-insert "gw_state" "gw_state" (str "started") gw,
  field-insert "gw_state" "gw_state" (str "stopped") gw,
)

field-with_state_ne :
    (j : String) (state : Scalar) (gw : Dict Scalar)
    → ("gw_state" == j) ≡ false
    → field j (with_state state gw) ≡ field j gw
field-with_state_ne j state gw apart = ground (
  arith,
  field-insert "gw_state" j (str "started") gw,
  field-insert "gw_state" j (str "stopped") gw,
)

-- The durations and the transcript leave the other fields.
progress_kept :
    (j : String) (gw info : Dict Scalar)
    → ("media_duration" == j) ≡ false
    → ("transcript_progress" == j) ≡ false
    → field j (
        write_if "transcript_progress" (field "transcript_progress" info) (
          write_if "media_duration"
            (field "streaming_duration" info)
            (write_if "media_duration" (field "recording_duration" info) gw)))
      ≡ field j gw
progress_kept j gw info m t =
    field-write_if "transcript_progress" j (field "transcript_progress" info) _ t
    ∙ field-write_if "media_duration" j (field "streaming_duration" info) _ m
    ∙ field-write_if "media_duration" j (field "recording_duration" info) gw m

-- What a report says of the entry that is written from it.
pub record Reported (gw info gw' : Dict Scalar) : Type 0 where
  pub state : field "gw_state" gw' ≡ reported_state (field "gw_state" info) (field "gw_state" gw)
  pub room : field "room" gw' ≡ text_or_null (field "room" info)
  pub physical_room : field "physical_room" gw' ≡ text_or_null (field "physical_room" info)
  pub browsing : field "browsing" gw' ≡ text_or_null (field "browsing" info)
  pub peer_uri : field "peer_uri" gw' ≡ text_or_null (field "peer_uri" info)
  pub peer_name : field "peer_name" gw' ≡ text_or_null (field "peer_name" info)
  pub call_started : field "call_started" gw' ≡ text_or_null (field "call_started" info)
  pub address : field "gw_ip" gw' ≡ field "gw_ip" gw
  pub kind : field "gw_type" gw' ≡ field "gw_type" gw
  pub start_time : field "start_time" gw' ≡ field "start_time" gw

ruleset writes = (field-insert, field-with_state)

-- An update takes the state from the report where it says "up" or "down" and else keeps it, mirrors
-- the room, the browsing and the peer of the report, absent ones as null, and keeps the address,
-- the kind and the start time.
pub update_progress-Reported : (gw info : Dict Scalar) → Reported gw info (update_progress gw info)
unfolding update_progress
update_progress-Reported gw info = record {
  state =
      simp writes
        (ap (reported_state (field "gw_state" info)) (progress_kept "gw_state" gw info refl refl));
  room = simp writes;
  physical_room = simp writes;
  browsing = simp writes;
  peer_uri = simp writes;
  peer_name = simp writes;
  call_started = simp writes;
  address = simp writes (
      field-with_state_ne "gw_ip" (field "gw_state" info) _ refl
      ∙ progress_kept "gw_ip" gw info refl refl);
  kind = simp writes (
      field-with_state_ne "gw_type" (field "gw_state" info) _ refl
      ∙ progress_kept "gw_type" gw info refl refl);
  start_time = simp writes (
      field-with_state_ne "start_time" (field "gw_state" info) _ refl
      ∙ progress_kept "start_time" gw info refl refl);
}
