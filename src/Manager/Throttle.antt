-- ===== src/Manager/Throttle.antt =====
-- manager/auth.py: the address that sign-in attempts are counted for, and their throttle.
pub mod Lock
use sipmedia_gw.Prelude.{
  ℕ, ◌+◌, String, Bool, true, false, ◌&&◌, ◌||◌, Option, none, some, List, [], ◌∷◌, Dict, lookup,
  insert, erase, ltb, leb, if◌then◌else◌,
}
use sipmedia_gw.Text.{strip, last_part, is_empty}

-- An entry of FORWARDED_ALLOW_IPS.
pub data Proxy : Type 0 where
  any_peer : Proxy
  network : String → Proxy

-- TRUST_PROXY and FORWARDED_ALLOW_IPS. `within` is the test of Python's `ipaddress`: the first text
-- is an address and lies in the network that the second one spells.
pub record Front : Type 0 where
  pub trust_proxy : Bool
  pub trusted : List Proxy
  pub within : String → String → Bool

-- What a request tells of its sender: the peer's address and X-Forwarded-For.
pub record Sender : Type 0 where
  pub peer : Option String
  pub forwarded : Option String

module _ (front : Front) where
  abbrev speaks_for : String → Proxy → Bool
  speaks_for peer any_peer = true
  speaks_for peer (network n) = front.within peer n

  unfoldable pub from_trusted_proxy : String → List Proxy → Bool
  from_trusted_proxy peer [] = false
  from_trusted_proxy peer (p ∷ ps) = speaks_for peer p || from_trusted_proxy peer ps

  abbrev or_unknown : String → String
  or_unknown s = elim (is_empty s) [ true ↦ "unknown" | false ↦ s ]

  abbrev peer_of : Option String → String
  peer_of none = "unknown"
  peer_of (some p) = p

  abbrev forwarded_or : Option String → String → String
  forwarded_or none peer = peer
  forwarded_or (some f) peer = elim (is_empty f) [
    | true ↦ peer
    | false ↦ or_unknown (strip (last_part 44 f))
  ]

  unfoldable pub client_ip : Sender → String
  unfolding from_trusted_proxy strip last_part
  client_ip sender =
      let peer = peer_of sender.peer in
      elim (front.trust_proxy && from_trusted_proxy peer front.trusted) [
        | true ↦ forwarded_or sender.forwarded peer
        | false ↦ peer
      ]

abbrev pub max_failures : ℕ
max_failures = 5

-- In seconds, as every time here.
abbrev pub lock_seconds : ℕ
lock_seconds = 60

-- The count of failures, and the time at which it expires.
abbrev pub Failures : Type 0
Failures = Dict (ℕ × ℕ)

-- The entries that have not expired.
unfoldable pub purge : ℕ → Failures → Failures
purge now [] = []
purge now ((ip, (n, unlock_at)) ∷ d) =
    let rest = purge now d in if leb unlock_at now then rest else (ip, (n, unlock_at)) ∷ rest

abbrev pub count_of : Option (ℕ × ℕ) → ℕ
count_of none = 0
count_of (some (n, unlock_at)) = n

unfoldable pub record_login_failure : String → ℕ → Failures → Failures
unfolding purge lookup insert
record_login_failure ip now d =
    let kept = purge now d in insert ip (count_of (lookup ip kept) + 1, now + lock_seconds) kept

abbrev verdict : String → ℕ → Failures → Option (ℕ × ℕ) → Bool × Failures
verdict ip now d none = (false, d)
verdict ip now d (some (n, unlock_at)) =
    if ltb n max_failures
    then (false, d)
    else if leb unlock_at now
    then (false, erase ip d)
    else (true, d)

unfoldable pub login_throttled : String → ℕ → Failures → Bool × Failures
unfolding lookup erase
login_throttled ip now d = verdict ip now d (lookup ip d)

unfoldable pub clear_login_failures : String → Failures → Failures
unfolding erase
clear_login_failures ip d = erase ip d
