-- ===== src/Proxy/Access.antt =====
-- deploy/proxyAPI/proxy.py: who may call a route, who the caller is, and the limit on failed pairing
-- codes.
pub mod Tries
pub mod Tokens
pub mod Get
use sipmedia_gw.Prelude.{
  ℕ, suc, ◌+◌, String, ◌≡◌, refl, Bool, true, false, not, ◌&&◌, ◌||◌, Option, none, some, ◌==◌, leb,
  eqb, Dict, if◌then◌else◌,
}
use sipmedia_gw.Text.{strip, strip_prefix, has_prefix, after, before, is_empty, upper}
pub use sipmedia_gw.Outcome.{Outcome, ok, refuse, crash, ◌>>=◌, >>=-eq-ok}
use sipmedia_gw.Proxy.Entry.{Scalar, str, Raw, plain, is_held, truthy, render, field}
use sipmedia_gw.Proxy.Redis.{Redis, Key, pairing, codetries, live, value_of, counter}

-- The environment that the module reads at its start. A limit of 0 turns the throttle off, as any
-- negative one does. `decode_basic` is base64 and UTF-8 decoding, `none` where it fails.
pub record Config : Type 0 where
  pub allowed_token : String
  pub admin_token : String
  pub room_token : String
  pub code_try_limit : ℕ
  pub code_try_window : ℕ
  pub trust_forwarded : Bool
  pub decode_basic : String → Option String

-- A request: two headers, the peer's address, and the body where it is a JSON object.
pub record Request : Type 0 where
  pub authorization : Option String
  pub forwarded_for : Option String
  pub client : Option String
  pub body : Option (Dict Scalar)

-- The text behind the first space of a header that begins with "Bearer ".
unfoldable pub bearer : Option String → Option String
unfolding has_prefix after
bearer none = none
bearer (some h) = if has_prefix "Bearer " h then some (after 32 h) else none

abbrev is_token : Option String → String → Bool
is_token none t = false
is_token (some s) t = s == t

unfoldable pub authorize : Config → Request → Bool
unfolding bearer
authorize cfg req = is_token (bearer req.authorization) cfg.allowed_token

-- The password of HTTP Basic: what follows the first ":" of the decoded text.
abbrev basic_password : Config → String → Option String
basic_password cfg h = elim (cfg.decode_basic (after 32 h)) [
  | none ↦ none
  | some text ↦ some (after 58 text)
]

abbrev admin_header : Config → Option String → Bool
admin_header cfg none = false
admin_header cfg (some h) =
    if has_prefix "Bearer " h
    then after 32 h == cfg.admin_token
    else if has_prefix "Basic " h
    then is_token (basic_password cfg h) cfg.admin_token
    else false

unfoldable pub authorize_admin : Config → Request → Bool
unfolding has_prefix after
authorize_admin cfg req =
    if is_empty cfg.admin_token then false else admin_header cfg req.authorization

unfoldable pub authorize_room : Config → Request → Bool
unfolding bearer
authorize_room cfg req =
    if is_empty cfg.room_token
    then false
    else is_token (bearer req.authorization) cfg.room_token
      || is_token (bearer req.authorization) cfg.allowed_token

abbrev peer_address : Option String → String
peer_address none = "unknown"
peer_address (some a) = a

abbrev header_address : Option String → String → String
header_address none peer = peer
header_address (some h) peer = elim (is_empty h) [ true ↦ peer | false ↦ strip (before 44 h) ]

-- Whom the attempts are counted for.
unfoldable pub caller_address : Config → Request → String
unfolding strip before
caller_address cfg req = elim cfg.trust_forwarded [
  | true ↦ header_address req.forwarded_for (peer_address req.client)
  | false ↦ peer_address req.client
]

abbrev is_one : Option ℕ → Bool
is_one none = false
is_one (some n) = eqb n 1

module _ (r : Redis) where
  open r use {Store, cell, put, setex, delete, incr, expire}

  -- redisClient.get
  unfoldable pub get : ℕ → Store → Key → Option Raw
  get now s k = value_of (live now (cell s k))

  abbrev as_number : Option ℕ → Outcome ℕ
  as_number none = crash
  as_number (some n) = ok n

  unfoldable pub too_many_code_tries : Config → Request → ℕ → Store → Outcome Bool
  unfolding get
  too_many_code_tries cfg req now s = if eqb cfg.code_try_limit 0 then ok false else (do
    n ← as_number (counter (get now s (codetries (caller_address cfg req))))
    ok (leb cfg.code_try_limit n))

  -- The counter's value after INCR is read back: it is what INCR returns.
  unfoldable pub note_failed_code_try : Config → Request → ℕ → Store → Store
  unfolding get
  note_failed_code_try cfg req now s =
      let key = codetries (caller_address cfg req) in
      let s' = incr now key s in
      if eqb cfg.code_try_limit 0
      then s
      else if is_one (counter (get now s' key))
      then expire now key cfg.code_try_window s'
      else s'
