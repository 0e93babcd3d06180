-- ===== src/Proxy/Pairing.antt =====
-- deploy/proxyAPI/proxy.py: the routes that take a pairing code. The pages' files are there.
pub mod Resolve
use sipmedia_gw.Prelude.{ℕ, String, Bool, true, false, Option, none, some, Dict, [], if◌then◌else◌}
use sipmedia_gw.Text.{strip, upper, is_empty, append}
use sipmedia_gw.Proxy.Entry.{Scalar, Raw, plain, object, count, is_held, truthy, render, field}
use sipmedia_gw.Proxy.Redis.{Redis, Key, gateway, pairing}
use sipmedia_gw.Proxy.Access.{
  Config, Request, Outcome, ok, refuse, crash, get, too_many_code_tries, note_failed_code_try,
}

abbrev pub body_or_empty : Option (Dict Scalar) → Dict Scalar
body_or_empty none = []
body_or_empty (some d) = d

-- str(v or "")
abbrev pub text_or_empty : Scalar → String
text_or_empty v = if truthy v then render v else ""

-- The code that a body asks for.
unfoldable pub asked_code : Request → String
unfolding field strip upper truthy render
asked_code req = upper (strip (text_or_empty (field "code" (body_or_empty req.body))))

-- What /interact answers: a redirection to the gateway or to the pairing page, or a page.
pub data Page : Type 0 where
  redirect : Raw → Page
  to_pairing pairing_form interact_page : Page

abbrev some_text : Option String → Option String
some_text none = none
some_text (some t) = if is_empty t then none else some t

-- a or b
abbrev first_text : Option String → Option String → Option String
first_text a b = elim (some_text a) [ none ↦ some_text b | some t ↦ some t ]

module _ (r : Redis) (cfg : Config) where
  open r use {Store}

  -- What a pairing key holds is a gateway's id, a text.
  unfoldable pub paired : ℕ → Store → String → Option Raw
  unfolding get
  paired now s code = if is_empty code then none else get r now s (pairing code)

  abbrev pub resolve_found : Request → ℕ → Store → Option Raw → Outcome Raw × Store
  resolve_found req now s none =
      (refuse 404 "Unknown pairing code", note_failed_code_try r cfg req now s)
  resolve_found req now s (some v) =
      if is_held (some v)
      then (ok v, s)
      else (refuse 404 "Unknown pairing code", note_failed_code_try r cfg req now s)

  abbrev pub resolve_allowed : Request → ℕ → Store → Outcome Bool → Outcome Raw × Store
  resolve_allowed req now s (ok true) = (refuse 429 "Too many attempts", s)
  resolve_allowed req now s (ok false) = resolve_found req now s (paired now s (asked_code req))
  resolve_allowed req now s (refuse c d) = (refuse c d, s)
  resolve_allowed req now s crash = (crash, s)

  -- POST /pairing/resolve
  unfoldable pub pairing_resolve : Request → ℕ → Store → Outcome Raw × Store
  unfolding paired
  pairing_resolve req now s = resolve_allowed req now s (too_many_code_tries r cfg req now s)

  abbrev note_and : Page → Request → ℕ → Store → Outcome Page × Store
  note_and page req now s = (ok page, note_failed_code_try r cfg req now s)

  abbrev interact_found : Request → ℕ → Store → Option Raw → Outcome Page × Store
  interact_found req now s none = note_and to_pairing req now s
  interact_found req now s (some v) =
      if is_held (some v) then (ok (redirect v), s) else note_and to_pairing req now s

  -- Here the code counts as it was typed.
  abbrev interact_allowed : String → Request → ℕ → Store → Outcome Bool → Outcome Page × Store
  interact_allowed code req now s (ok true) = (refuse 429 "Too many attempts", s)
  interact_allowed code req now s (ok false) = interact_found req now s (get r now s (pairing code))
  interact_allowed code req now s (refuse c d) = (refuse c d, s)
  interact_allowed code req now s crash = (crash, s)

  abbrev interact_code : Option String → Request → ℕ → Store → Outcome Page × Store
  interact_code none req now s = (ok pairing_form, s)
  interact_code (some code) req now s =
      if is_empty code
      then (ok pairing_form, s)
      else interact_allowed code req now s (too_many_code_tries r cfg req now s)

  -- GET /interact, with its query parameters gwId, gw_id and pairingCode.
  unfoldable pub interact :
      Option String → Option String → Option String → Request → ℕ → Store → Outcome Page × Store
  unfolding get
  interact gw_id gw_id' code req now s = elim (first_text gw_id gw_id') [
    | none ↦ interact_code code req now s
    | some id ↦ (ok (if is_held (get r now s (gateway id)) then interact_page else to_pairing), s)
  ]
