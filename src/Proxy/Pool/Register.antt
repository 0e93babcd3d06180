-- ===== src/Proxy/Pool/Register.antt =====
-- deploy/proxyAPI/proxy.py: POST /register and POST /unregister.
pub mod Laws
use sipmedia_gw.Prelude.{
  ℕ, String, Bool, true, false, not, ◌||◌, Option, none, some, [], ◌∷◌, Dict, insert, lookup, eqb,
  if◌then◌else◌,
}
use sipmedia_gw.Text.{append, is_empty, show, parse_nat}
use sipmedia_gw.Proxy.Entry.{
  Scalar, null, str, num, flag, Raw, object, count, plain, truthy, render, field, gw_load, gw_dump,
}
use sipmedia_gw.Proxy.Redis.{Redis, Key, gateway, pairing}
use sipmedia_gw.Proxy.Access.{Config, Request, Outcome, ok, refuse, crash, authorize, get}

-- What a new gateway's entry holds before its address and kind.
unfoldable pub new_entry : String → Dict Scalar
new_entry stamp =
    ("gw_state", str "created")
    ∷ ("start_time", str stamp)
    ∷ ("room", null)
    ∷ ("media_duration", str "0")
    ∷ ("transcript_progress", str "0")
    ∷ ("browsing", null)
    ∷ ("peer_uri", null)
    ∷ ("peer_name", null)
    ∷ ("call_started", null)
    ∷ []

abbrev pub or_new : String → Dict Scalar → Dict Scalar
or_new stamp [] = new_entry stamp
or_new stamp (e ∷ d) = e ∷ d

-- A registration sets the address and the kind, and keeps the rest of an entry that is there.
unfoldable pub registered_entry : Scalar → Scalar → String → Dict Scalar → Dict Scalar
unfolding new_entry
registered_entry ip kind stamp gw = insert "gw_type" kind (insert "gw_ip" ip (or_new stamp gw))

-- body.get("gw_type", "media")
abbrev pub kind_of : Option Scalar → Scalar
kind_of none = str "media"
kind_of (some v) = v

abbrev pub positive : Option ℕ → Option ℕ
positive none = none
positive (some n) = if eqb n 0 then none else some n

-- The expiry that SETEX takes: a positive integer, or its digits.
unfoldable pub ttl_of : Scalar → Option ℕ
unfolding parse_nat
ttl_of (num n) = positive (some n)
ttl_of (str s) = positive (parse_nat s)
ttl_of _ = none

-- What redis-py takes as a value: a text or a number.
abbrev pub storable : Scalar → Bool
storable (str s) = true
storable (num n) = true
storable _ = false

-- What a pairing key gives back: the text of a gateway's id.
abbrev pub id_of : Raw → Scalar
id_of (plain t) = str t
id_of (count n) = str (show n)
id_of (object d) = null

module _ (r : Redis) where
  open r use {Store, put, setex, delete}

  -- A gateway's id and the pairing code that leads to it.
  abbrev Paired : Type 0
  Paired = Scalar × Scalar

  abbrev pub new_code : Dict Scalar → String → ℕ → Option ℕ → Store → Outcome Paired × Store
  new_code body fresh now none s = (refuse 400 "setex", s)
  new_code body fresh now (some ttl) s =
      let id = field "gw_id" body in
      if storable id
      then (ok (id, str fresh), setex now (pairing fresh) ttl (plain (render id)) s)
      else (refuse 400 "setex", s)

  abbrev pub known_code : Dict Scalar → String → ℕ → Option Raw → Store → Outcome Paired × Store
  known_code body fresh now none s =
      new_code body fresh now (ttl_of (field "pairing_timeout" body)) s
  known_code body fresh now (some v) s = (ok (id_of v, field "pairing_code" body), s)

  -- `fresh` is the code that is drawn.
  unfoldable pub register_code : Dict Scalar → String → ℕ → Store → Outcome Paired × Store
  unfolding get field truthy render ttl_of
  register_code body fresh now s =
      let code = field "pairing_code" body in
      if truthy code
      then known_code body fresh now (get r now s (pairing (render code))) s
      else new_code body fresh now (ttl_of (field "pairing_timeout" body)) s

  unfoldable pub register_as : Dict Scalar → String → ℕ → Paired → Store → Outcome Paired × Store
  unfolding get field truthy render gw_load gw_dump registered_entry lookup
  register_as body stamp now (id, code) s =
      let ip = field "gw_ip" body in
      let key = gateway (render id) in
      let gw =
        registered_entry ip (kind_of (lookup "gw_type" body)) stamp (gw_load (get r now s key)) in
      if not (truthy ip) || not (truthy id)
      then (refuse 400 "Missing 'gwIp' or 'gw_id'", s)
      else (ok (id, code), put key (gw_dump gw) s)

  abbrev pub register_then :
      Dict Scalar → String → ℕ → Outcome Paired × Store → Outcome Paired × Store
  register_then body stamp now (ok p, s) = register_as body stamp now p s
  register_then body stamp now (refuse c d, s) = (refuse c d, s)
  register_then body stamp now (crash, s) = (crash, s)

  abbrev pub register_body :
      Option (Dict Scalar) → String → String → ℕ → Store → Outcome Paired × Store
  register_body none fresh stamp now s = (refuse 400 "request body", s)
  register_body (some body) fresh stamp now s =
      register_then body stamp now (register_code body fresh now s)

  -- POST /register, at `now`, written `stamp`. Every error behind the token is answered by 400.
  unfoldable pub register : Config → Request → String → String → ℕ → Store → Outcome Paired × Store
  unfolding authorize register_code register_as
  register cfg req fresh stamp now s =
      if not (authorize cfg req)
      then (refuse 401 "authorization error", s)
      else register_body req.body fresh stamp now s

  abbrev pub unregister_id : Scalar → Option Raw → Store → Outcome Scalar × Store
  unregister_id id none s = (refuse 404 (append "Gateway '" (append (render id) "' not found")), s)
  unregister_id id (some v) s = (ok id, delete (gateway (render id)) s)

  abbrev pub unregister_body : Option (Dict Scalar) → ℕ → Store → Outcome Scalar × Store
  unregister_body none now s = (refuse 400 "request body", s)
  unregister_body (some body) now s =
      let id = field "gw_id" body in
      let gone = unregister_id id (get r now s (gateway (render id))) s in
      if not (truthy id) then (refuse 400 "Missing 'gw_id'", s) else gone

  -- POST /unregister
  unfoldable pub unregister : Config → Request → ℕ → Store → Outcome Scalar × Store
  unfolding authorize get field truthy render append
  unregister cfg req now s =
      if not (authorize cfg req)
      then (refuse 401 "authorization error", s)
      else unregister_body req.body now s
