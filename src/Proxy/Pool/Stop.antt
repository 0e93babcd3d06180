-- ===== src/Proxy/Pool/Stop.antt =====
-- deploy/proxyAPI/proxy.py: POST /stop.
pub mod Laws
use sipmedia_gw.Prelude.{
  ℕ, String, Bool, true, false, not, ◌||◌, Option, none, some, Dict, insert, lookup, if◌then◌else◌,
}
use sipmedia_gw.Text.{append, contains}
use sipmedia_gw.Proxy.Entry.{
  Scalar, null, str, Raw, truthy, render, field, is_held, gw_load, gw_dump,
}
use sipmedia_gw.Proxy.Redis.{Redis, Key, gateway}
use sipmedia_gw.Proxy.Access.{Config, Request, Outcome, ok, refuse, crash, ◌>>=◌, authorize, get}
use sipmedia_gw.Proxy.Pool.Answer.{
  Reply, timeout, broken, garbled, answer, Payload, absent, malformed, fields,
}
use sipmedia_gw.Proxy.Pool.Allocate.{need, need_ip, json}

-- What the answer to /stop says in its "status" field.
pub data Verdict : Type 0 where
  success error unparsed : Verdict

abbrev says_stopping : String → Verdict
says_stopping t = if contains "stopping" t || contains "stopped" t then success else error

abbrev progress_verdict : Option Scalar → Verdict
progress_verdict none = error
progress_verdict (some (str t)) = says_stopping t
progress_verdict (some v) = unparsed

-- `"stopping" in details or "stopped" in details`, for the "processing_state" of the answer.
unfoldable pub stop_verdict : Payload → Verdict
unfolding contains lookup
stop_verdict absent = error
stop_verdict malformed = unparsed
stop_verdict (fields d) = progress_verdict (lookup "processing_state" d)

-- The entry of a stopped gateway.
unfoldable pub stopped_entry : Dict Scalar → Dict Scalar
stopped_entry gw = insert "gw_state" (str "deleted") (
    insert "call_started" (str "") (
      insert "peer_name" (str "")
        (insert "peer_uri" (str "") (insert "browsing" (str "") (insert "room" (str "") gw)))))

-- The gateway that a stop is for, with its entry as it was read.
pub record Halt : Type 0 where
  pub gw_id : String
  pub ip : Scalar
  pub entry : Dict Scalar

module _ (r : Redis) where
  open r use {Store, put}

  abbrev held_entry : String → Option Raw → Outcome (Dict Scalar)
  held_entry id raw =
      if is_held raw
      then ok (gw_load raw)
      else refuse 404 (append "No mapping found for gateway '" (append id "'"))

  -- POST /stop up to the call of the gateway.
  unfoldable pub stop_pick : Config → Request → ℕ → Store → Outcome Halt
  unfolding authorize get need_ip gw_load
  stop_pick cfg req now s =
      if not (authorize cfg req) then refuse 401 "authorization error" else (do
        body ← json req.body
        id ← need (field "gw_id" body) "Missing 'gw_id' parameter"
        gw ← held_entry (render id) (get r now s (gateway (render id)))
        ip ← need_ip gw
        ok (record { gw_id = render id; ip = ip; entry = gw }))

  abbrev pub stop_with : Halt → ℕ → Verdict → Store → Outcome (ℕ × Verdict) × Store
  stop_with h code success s =
      (ok (code, success), put (gateway h.gw_id) (gw_dump (stopped_entry h.entry)) s)
  stop_with h code v s = (ok (code, v), s)

  -- POST /stop from the gateway's answer on.
  unfoldable pub stop_finish : Halt → Reply → Store → Outcome (ℕ × Verdict) × Store
  unfolding stop_verdict stopped_entry gw_dump
  stop_finish h timeout s = (refuse 504 "Gateway timeout", s)
  stop_finish h broken s = (crash, s)
  stop_finish h garbled s = (crash, s)
  stop_finish h (answer code status info) s = stop_with h code (stop_verdict info) s
