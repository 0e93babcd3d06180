-- ===== src/Proxy/Pairing/Resolve.antt =====
-- deploy/proxyAPI/proxy.py: what a pairing code gives, and what a refused one changes.
use sipmedia_gw.Prelude.{
  ℕ, ◌+◌, ◌≤◌, ◌<◌, ◌≡◌, refl, Bool, true, false, Option, none, some, List, ◌∷◌, eqb, length, All,
  if◌then◌else◌, Bool-cases, inl, inr, le→leb, lt→ltb, Dict,
}
use sipmedia_gw.Proxy.Entry.{Scalar, Raw, is_held}
use sipmedia_gw.Proxy.Redis.{Redis, Key, key_eq, live}
use sipmedia_gw.Proxy.Access.{
  Config, Request, Outcome, ok, refuse, crash, too_many_code_tries, caller_address,
  note_failed_code_try,
}
use sipmedia_gw.Proxy.Access.Tries.{key, note_all, code_tries_lock, cell-note}
use sipmedia_gw.Proxy.Pairing.{pairing_resolve, paired, asked_code, resolve_found, resolve_allowed}

abbrev pub or_crash : Option Raw → Outcome Raw
or_crash none = crash
or_crash (some v) = ok v

module _ (r : Redis) (cfg : Config) (req : Request) where
  open r use {Store, cell}

  too_many-body :
      (b : Option (Dict Scalar)) (now : ℕ) (s : Store)
      → too_many_code_tries r cfg (record req { body = b }) now s
        ≡ too_many_code_tries r cfg req now s
  unfolding too_many_code_tries caller_address
  too_many-body b now s = refl

  -- While the window lasts, as many failures as the limit lock a caller out of /pairing/resolve,
  -- whatever it sends, a live code included; the refusal changes nothing.
  pub pairing_resolve_locked :
      (t : ℕ) (ts : List ℕ) (now : ℕ) (s : Store) (b : Option (Dict Scalar))
      → eqb cfg.code_try_limit 0 ≡ false
      → live t (cell s (key r cfg req)) ≡ none
      → All (λ u. u < t + cfg.code_try_window) ts
      → now < t + cfg.code_try_window
      → cfg.code_try_limit ≤ 1 + length ts
      → pairing_resolve r cfg (record req { body = b }) now (note_all r cfg req (t ∷ ts) s)
        ≡ (refuse 429 "Too many attempts", note_all r cfg req (t ∷ ts) s)
  unfolding pairing_resolve
  pairing_resolve_locked t ts now s b on e within early enough =
      rw (too_many-body b now (note_all r cfg req (t ∷ ts) s)) (
        rw (code_tries_lock r cfg req t ts now s on e within)
          (rw (lt→ltb _ _ early) (rw (le→leb _ _ enough))))

  -- A request that is not locked out gets what is held under the code it names, trimmed and in
  -- capitals; a code that holds nothing is refused with 404 and counts as a failure, and nothing
  -- else changes.
  pub pairing_resolve_open :
      (now : ℕ) (s : Store)
      → too_many_code_tries r cfg req now s ≡ ok false
      → pairing_resolve r cfg req now s ≡ (
          if is_held (paired r cfg now s (asked_code req))
          then (or_crash (paired r cfg now s (asked_code req)), s)
          else (refuse 404 "Unknown pairing code", note_failed_code_try r cfg req now s))
  unfolding pairing_resolve is_held
  pairing_resolve_open now s free = rw free (open_cases (paired r cfg now s (asked_code req)))
    where
      open_cases :
          (o : Option Raw)
          → resolve_found r cfg req now s o ≡ (
              if is_held o
              then (or_crash o, s)
              else (refuse 404 "Unknown pairing code", note_failed_code_try r cfg req now s))
      open_cases none = refl
      open_cases (some v) = elim (Bool-cases (is_held (some v))) [
        | inl held ↦ rw held
        | inr lacks ↦ rw lacks
      ]

  -- Whatever is sent, /pairing/resolve changes no key but the caller's counter of failures.
  pub cell-pairing_resolve :
      (now : ℕ) (s : Store) (j : Key)
      → key_eq (key r cfg req) j ≡ false
      → cell (pairing_resolve r cfg req now s).1 j ≡ cell s j
  unfolding pairing_resolve
  cell-pairing_resolve now s j apart = by_throttle (too_many_code_tries r cfg req now s) refl
    where
      by_found :
          (o : Option Raw)
          → too_many_code_tries r cfg req now s ≡ ok false
          → cell (resolve_found r cfg req now s o).1 j ≡ cell s j
      by_found none e = cell-note r cfg req now s false j e apart
      by_found (some v) e = elim (Bool-cases (is_held (some v))) [
        | inl held ↦ rw held
        | inr lacks ↦ rw lacks (cell-note r cfg req now s false j e apart)
      ]

      by_throttle :
          (o : Outcome Bool)
          → too_many_code_tries r cfg req now s ≡ o
          → cell (resolve_allowed r cfg req now s o).1 j ≡ cell s j
      by_throttle (ok true) e = refl
      by_throttle (ok false) e = by_found (paired r cfg now s (asked_code req)) e
      by_throttle (refuse c d) e = refl
      by_throttle crash e = refl
