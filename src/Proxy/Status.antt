-- ===== src/Proxy/Status.antt =====
-- deploy/proxyAPI/proxy.py: GET /status, and the relay of commands to a gateway.
pub mod Fresh
use sipmedia_gw.Prelude.{
  ℕ, String, Bool, true, false, not, ◌&&◌, ◌||◌, Option, none, some, List, [], ◌∷◌, Dict,
  if◌then◌else◌,
}
use sipmedia_gw.Text.{append, is_empty}
use sipmedia_gw.Proxy.Entry.{
  Scalar, null, str, Raw, truthy, render, field, is_text, is_held, clean_part, gw_load,
}
use sipmedia_gw.Proxy.Redis.{Redis, Key, gateway}
use sipmedia_gw.Proxy.Access.{Request, Outcome, ok, refuse, crash, ◌>>=◌, get}
use sipmedia_gw.Proxy.Pool.Answer.{Reply}
use sipmedia_gw.Proxy.Pool.Allocate.{key_gw_id, need_ip}
use sipmedia_gw.Proxy.Pool.Monitor.{monitor_one}

-- The "data" of a status.
pub record Shown : Type 0 where
  pub gw_id : String
  pub gw_type : Scalar
  pub gw_state : Scalar
  pub room : Scalar
  pub physical_room : Scalar
  pub browsing : Scalar
  pub peer_uri : Scalar
  pub peer_name : Scalar
  pub call_started : Scalar
  pub media_duration : Scalar
  pub transcript_progress : Scalar

abbrev pub shown : String → Dict Scalar → Shown
shown id gw = record {
  gw_id = id;
  gw_type = clean_part (field "gw_type" gw);
  gw_state = field "gw_state" gw;
  room = clean_part (field "room" gw);
  physical_room = clean_part (field "physical_room" gw);
  browsing = clean_part (field "browsing" gw);
  peer_uri = clean_part (field "peer_uri" gw);
  peer_name = clean_part (field "peer_name" gw);
  call_started = clean_part (field "call_started" gw);
  media_duration = field "media_duration" gw;
  transcript_progress = field "transcript_progress" gw;
}

abbrev not_found : String → String
not_found id = append "Gateway '" (append id "' not found")

-- The id of a relayed request: the body's for anything but a GET, else the query's.
abbrev pub relay_id : Bool → Option (Dict Scalar) → String → String
relay_id true body id = id
relay_id false none id = id
relay_id false (some d) id = if truthy (field "gw_id" d) then render (field "gw_id" d) else id

-- `await request.json()` of a request that is not a GET.
abbrev pub relay_body : Bool → Option (Dict Scalar) → Outcome (Option (Dict Scalar))
relay_body true body = ok none
relay_body false none = crash
relay_body false (some d) = ok (some d)

module _ (r : Redis) where
  open r use {Store}

  -- The first gateway of the scan whose room is the one asked for.
  unfoldable pub find_room : String → ℕ → List String → Store → Option String
  unfolding get is_held field gw_load key_gw_id
  find_room room now [] s = none
  find_room room now (id ∷ ids) s =
      let raw = get r now s (gateway id) in
      let rest = find_room room now ids s in
      if is_held raw && is_text room (field "room" (gw_load raw)) then some (key_gw_id id) else rest

  abbrev found_room : String → Option String → Outcome String
  found_room room none = refuse 404 (append "No gateway found for room '" (append room "'"))
  found_room room (some id) =
      if is_empty id
      then refuse 404 (append "No gateway found for room '" (append room "'"))
      else ok id

  -- Which gateway a status is for.
  unfoldable pub status_target : String → String → ℕ → List String → Store → Outcome String
  unfolding find_room append
  status_target id room now ids s =
      if is_empty room
      then (if is_empty id then refuse 400 "Missing 'gw_id' or 'room' parameter" else ok id)
      else found_room room (find_room room now ids s)

  -- getGatewayStatusFromRedis, and the answer from it.
  unfoldable pub gateway_status : String → ℕ → Store → Outcome Shown
  unfolding get is_held gw_load need_ip field clean_part
  gateway_status id now s =
      let raw = get r now s (gateway id) in
      let gw = gw_load raw in
      if is_held raw
      then (need_ip gw >>= λ ip. ok (shown id gw))
      else refuse 404 "Failed to get gateway status"

  abbrev status_again : String → ℕ → Store → Outcome Shown
  status_again id now s =
      if is_held (get r now s (gateway id))
      then gateway_status id now s
      else refuse 404 (append "Gateway '" (append id "' unreachable after on‑the‑fly check"))

  abbrev is_polled : Scalar → Bool
  is_polled kind = is_text "baresip" kind || is_text "browser" kind

  abbrev status_of :
      String → Reply → ℕ → Outcome Scalar → Dict Scalar → Store → Outcome Shown × Store
  status_of id reply now (ok ip) gw s =
      let s' = monitor_one r id reply now s in
      if is_polled (field "gw_type" gw)
      then (status_again id now s', s')
      else (gateway_status id now s, s)
  status_of id reply now (refuse c d) gw s = (refuse c d, s)
  status_of id reply now crash gw s = (crash, s)

  abbrev status_at : Outcome String → Reply → ℕ → Store → Outcome Shown × Store
  status_at (refuse c d) reply now s = (refuse c d, s)
  status_at crash reply now s = (crash, s)
  status_at (ok id) reply now s =
      let raw = get r now s (gateway id) in
      if is_held raw
      then status_of id reply now (need_ip (gw_load raw)) (gw_load raw) s
      else (refuse 404 (not_found id), s)

  -- GET /status?gw_id=…&room=…, both "" where absent. `reply` is what the gateway answers, if it is
  -- asked.
  unfoldable pub status : String → String → Reply → ℕ → List String → Store → Outcome Shown × Store
  unfolding status_target gateway_status get is_held gw_load need_ip field append
  status id room reply now ids s = status_at (status_target id room now ids s) reply now s

  -- genericGatewayProxy up to the call of the gateway: the address that the request goes to.
  unfoldable pub relay : Bool → Request → String → ℕ → Store → Outcome Scalar
  unfolding get is_held gw_load need_ip field truthy render append
  relay is_get req query_id now s =
      let id = relay_id is_get req.body query_id in
      let raw = get r now s (gateway id) in
      let gw = gw_load raw in
      if is_empty id
      then refuse 400 "Missing 'gw_id' parameter"
      else if not (is_held raw)
      then refuse 404 (not_found id)
      else (do
        ip ← need_ip gw
        running ←
            if is_text "started" (field "gw_state" gw)
            then ok true
            else refuse 403 (append "Gateway '" (append id "' is stopped, cannot send commands"))
        sent ← relay_body is_get req.body
        ok ip)
