-- ===== src/Proxy/Pool/Allocate.antt =====
-- deploy/proxyAPI/proxy.py: findAvailableGateway and POST /start.
pub mod Start
use sipmedia_gw.Prelude.{
  ℕ, String, ◌≡◌, Bool, true, false, not, ◌||◌, Option, none, some, List, [], ◌∷◌, Dict, insert,
  lookup, if◌then◌else◌,
}
use sipmedia_gw.Text.{append, last_part}
use sipmedia_gw.Proxy.Entry.{Scalar, str, Raw, truthy, is_set, field, is_text, gw_load, gw_dump}
use sipmedia_gw.Proxy.Redis.{Redis, Key, gateway}
use sipmedia_gw.Proxy.Access.{Config, Request, Outcome, ok, refuse, crash, ◌>>=◌, authorize, get}
use sipmedia_gw.Proxy.Pool.Answer.{Reply, timeout, broken, garbled, answer, Payload}

-- `key.split(":")[-1]`, for the key "gateway:<id>".
unfoldable pub key_gw_id : String → String
unfolding append last_part
key_gw_id id = last_part 58 (append "gateway:" id)

-- gw["gw_ip"], a KeyError where the entry has none.
unfoldable pub need_ip : Dict Scalar → Outcome Scalar
unfolding lookup
need_ip gw = elim (lookup "gw_ip" gw) [ none ↦ crash | some ip ↦ ok ip ]

-- The two states in which a gateway may be allocated.
unfoldable pub is_available : Dict Scalar → Bool
unfolding field
is_available gw =
    let state = field "gw_state" gw in is_text "created" state || is_text "stopped" state

abbrev pub need : Scalar → String → Outcome Scalar
need v missing = if truthy v then ok v else refuse 400 missing

abbrev pub json : Option (Dict Scalar) → Outcome (Dict Scalar)
json none = crash
json (some d) = ok d

-- gwLoad(rawValue) or {"gw_ip": gwIp}
abbrev pub or_ip : Scalar → Dict Scalar → Dict Scalar
or_ip ip [] = ("gw_ip", ip) ∷ []
or_ip ip (e ∷ d) = e ∷ d

-- The entry that an accepted start writes.
unfoldable pub started_entry : Scalar → Scalar → Scalar → Dict Scalar → Dict Scalar
started_entry ip room browsing gw =
    insert "browsing" browsing
      (insert "room" room (insert "gw_state" (str "started") (or_ip ip gw)))

-- A gateway and what a start asks of it.
pub record Job : Type 0 where
  pub gw_id : String
  pub ip : Scalar
  pub room : Scalar
  pub browsing : Scalar

abbrev pub allocated : Scalar → Scalar → Option (String × Scalar) → Outcome Job
allocated room browsing none = refuse 503 "No available gateways"
allocated room browsing (some (id, ip)) =
    ok (record { gw_id = key_gw_id id; ip = ip; room = room; browsing = browsing })

module _ (r : Redis) where
  open r use {Store, put}

  -- The ids are those of the keys "gateway:<id>", in the order in which SCAN gives them.
  unfoldable pub find_available : ℕ → List String → Store → Outcome (Option (String × Scalar))
  unfolding get need_ip is_available gw_load
  find_available now [] s = ok none
  find_available now (id ∷ ids) s =
      let gw = gw_load (get r now s (gateway id)) in
      let rest = find_available now ids s in
      need_ip gw >>= λ ip. if is_available gw then ok (some (id, ip)) else rest

  -- POST /start up to the call of the gateway.
  unfoldable pub start_pick : Config → Request → ℕ → List String → Store → Outcome Job
  unfolding authorize find_available key_gw_id
  start_pick cfg req now ids s =
      if not (authorize cfg req) then refuse 401 "authorization error invalid_token " else (do
        body ← json req.body
        browsing ← need (field "browsing" body) "Missing 'browsing' parameter"
        room ← need (field "room" body) "Missing 'room' parameter"
        main_app ← need (field "main_app" body) "Missing 'main_app' parameter"
        gw ← find_available now ids s
        allocated room browsing gw)

  -- POST /start from the gateway's answer on. The answer's code is sent back.
  unfoldable pub start_finish : Job → Reply → ℕ → Store → Outcome ℕ × Store
  unfolding get gw_load gw_dump started_entry
  start_finish job timeout now s = (refuse 504 "Gateway timeout", s)
  start_finish job broken now s = (crash, s)
  start_finish job garbled now s = (crash, s)
  start_finish job (answer code status info) now s =
      let key = gateway job.gw_id in
      let gw = started_entry job.ip job.room job.browsing (gw_load (get r now s key)) in
      if is_text "success" status
      then (ok code, put key (gw_dump gw) s)
      else (refuse 503 "Faild to parse Gateway Json response", s)
