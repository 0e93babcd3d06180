-- ===== src/Proxy/Pool/Monitor/Laws.antt =====
-- deploy/proxyAPI/proxy.py: what a cycle of the monitor makes of every entry.
use sipmedia_gw.Prelude.{
  ℕ, String, ◌≡◌, refl, sym, ap, subst, ◌∙◌, Bool, true, false, Option, none, some, List, [], ◌∷◌,
  ◌==◌, eq_iff, Dict, All, if◌then◌else◌, Bool-cases, inl, inr, ◌||◌,
}
use sipmedia_gw.Text.{has_char}
use sipmedia_gw.Proxy.Entry.{Scalar, Raw, field, truthy, is_text, is_held, gw_load, gw_dump}
use sipmedia_gw.Proxy.Redis.{Redis, Key, gateway}
use sipmedia_gw.Proxy.Access.{get}
use sipmedia_gw.Proxy.Access.Get.{get-put, get-delete}
use sipmedia_gw.Proxy.Pool.Answer.{
  Reply, answer, timeout, broken, garbled, fields, absent, malformed, update_progress,
}
use sipmedia_gw.Proxy.Pool.Allocate.{key_gw_id}
use sipmedia_gw.Proxy.Pool.Monitor.{store_status, monitor_entry, monitor_cycle}

-- The report that a reply carries, if it is a success.
abbrev pub report : Reply → Option (Dict Scalar)
report (answer code status (fields info)) = if is_text "success" status then some info else none
report _ = none

abbrev pub written : Dict Scalar → Option (Dict Scalar) → Option Raw
written gw none = none
written gw (some info) = some (gw_dump (update_progress gw info))

-- What a cycle makes of an entry: one with an address is replaced by what its gateway reports, and
-- ended without a report; one that is unreadable or has no address stays.
abbrev pub refreshed : Reply → Option Raw → Option Raw
refreshed reply raw =
    if is_held raw
    then (if truthy (field "gw_ip" (gw_load raw))
        then written (gw_load raw) (report reply)
        else raw)
    else raw

-- An id with no ":" is read back from its key.
pub key_gw_id_plain : (id : String) → has_char 58 id ≡ false → key_gw_id id ≡ id
unfolding key_gw_id has_char
key_gw_id_plain id h = rw h

abbrev pub member : String → List String → Bool
member id [] = false
member id (j ∷ js) = j == id || member id js

-- SCAN gives every id once.
abbrev pub Distinct : List String → Type 0
Distinct [] = Unit
Distinct (j ∷ js) = (member j js ≡ false) × Distinct js

module _ (r : Redis) (now : ℕ) where
  open r use {Store, put, delete}

  pub get-store_status :
      (j id : String) (gw : Dict Scalar) (reply : Reply) (s : Store)
      → get r now (store_status r j gw reply s) (gateway id)
        ≡ (if j == id then written gw (report reply) else get r now s (gateway id))
  unfolding store_status
  get-store_status j id gw timeout s = get-delete r (gateway j) (gateway id) now s
  get-store_status j id gw broken s = get-delete r (gateway j) (gateway id) now s
  get-store_status j id gw garbled s = get-delete r (gateway j) (gateway id) now s
  get-store_status j id gw (answer code status (fields info)) s =
      elim (Bool-cases (is_text "success" status)) [
        | inl e ↦ rw e (get-put r (gateway j) (gateway id) _ now s)
        | inr e ↦ rw e (get-delete r (gateway j) (gateway id) now s)
      ]
  get-store_status j id gw (answer code status absent) s =
      elim (Bool-cases (is_text "success" status)) [
        | inl e ↦ rw e (get-delete r (gateway j) (gateway id) now s)
        | inr e ↦ rw e (get-delete r (gateway j) (gateway id) now s)
      ]
  get-store_status j id gw (answer code status malformed) s =
      elim (Bool-cases (is_text "success" status)) [
        | inl e ↦ rw e (get-delete r (gateway j) (gateway id) now s)
        | inr e ↦ rw e (get-delete r (gateway j) (gateway id) now s)
      ]

  if_same : (b : Bool) (x : Option Raw) → x ≡ (if b then x else x)
  if_same true x = refl
  if_same false x = refl

  -- What one step of the cycle makes of an entry.
  get-monitor_entry :
      (replies : String → Reply) (j id : String) (s : Store)
      → has_char 58 j ≡ false
      → get r now (monitor_entry r replies now j s) (gateway id) ≡ (
          if j == id
          then refreshed (replies j) (get r now s (gateway j))
          else get r now s (gateway id))
  unfolding monitor_entry
  get-monitor_entry replies j id s plain =
      rw (key_gw_id_plain j plain) (elim (Bool-cases (is_held (get r now s (gateway j)))) [
        | inr lacks ↦ rw lacks (own_or j id (get r now s))
        | inl held ↦
            elim (Bool-cases (truthy (field "gw_ip" (gw_load (get r now s (gateway j)))))) [
              | inr lacks ↦ rw (held, lacks) (own_or j id (get r now s))
              | inl reachable ↦ rw (held, reachable) (get-store_status j id _ (replies j) s)
            ]
      ])
    where
      own_or :
          (j id : String) (f : Key → Option Raw)
          → f (gateway id) ≡ (if j == id then f (gateway j) else f (gateway id))
      own_or j id f = elim (Bool-cases (j == id)) [
        | inl e ↦ rw e (ap (λ x. f (gateway x)) (sym ((eq_iff j id).0 e)))
        | inr e ↦ rw e
      ]

  -- A cycle treats every entry by its own: over distinct ids without ":", each listed entry becomes
  -- what its gateway reports, whatever the other gateways answer, and every other entry stays.
  pub get-monitor_cycle :
      (replies : String → Reply) (ids : List String) (id : String) (s : Store)
      → All (λ j. has_char 58 j ≡ false) ids
      → Distinct ids
      → get r now (monitor_cycle r replies now ids s) (gateway id) ≡ (
          if member id ids
          then refreshed (replies id) (get r now s (gateway id))
          else get r now s (gateway id))
  unfolding monitor_cycle
  get-monitor_cycle replies [] id s plain apart = refl
  get-monitor_cycle replies (j ∷ ids) id s plain apart =
      get-monitor_cycle replies ids id (monitor_entry r replies now j s) plain.1 apart.1
      ∙ elim (Bool-cases (j == id)) [
        | inl e ↦
            rw (subst (λ x. member x ids ≡ false) ((eq_iff j id).0 e) apart.0, e)
              (get-monitor_entry replies j id s plain.0
                ∙ rw e
                    (ap (λ x. refreshed (replies x) (get r now s (gateway x))) ((eq_iff j id).0 e)))
        | inr e ↦ rw (get-monitor_entry replies j id s plain.0) (rw e)
      ]
