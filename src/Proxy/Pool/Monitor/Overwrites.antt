-- ===== src/Proxy/Pool/Monitor/Overwrites.antt =====
-- deploy/proxyAPI/proxy.py: the monitor writes back the entry that it read before it called the
-- gateway.
use sipmedia_gw.Prelude.{
  ℕ, String, ◌≡◌, ap, ◌∙◌, subst, true, false, ◌||◌, none, some, eq_refl, Dict, if_true, if_false,
  Bool-cases, inl, inr,
}
use sipmedia_gw.Proxy.Entry.{Scalar, str, field, is_text, render, gw_load, gw_dump}
use sipmedia_gw.Proxy.Entry.Dump.{field-gw_load-gw_dump}
use sipmedia_gw.Proxy.Redis.{Redis, gateway}
use sipmedia_gw.Proxy.Access.{Config, Request, Outcome, ok, refuse, crash, get}
use sipmedia_gw.Proxy.Pool.Answer.{
  fields, answer, update_progress, reported_state, update_progress-Reported,
}
use sipmedia_gw.Proxy.Pool.Allocate.{Job, is_available, start_finish}
use sipmedia_gw.Proxy.Pool.Allocate.Start.{start_finish-Started}
use sipmedia_gw.Proxy.Pool.Monitor.{store_status}
use sipmedia_gw.Proxy.Pool.Monitor.Laws.{get-store_status}
use sipmedia_gw.Proxy.Pool.Register.{unregister}
use sipmedia_gw.Proxy.Pool.Register.Laws.{Unregisters, unregister-Unregisters}

module _ (r : Redis) (now : ℕ) where
  open r use {Store}

  -- The entry after the report of a gateway, whatever was written during the call.
  reported_entry :
      (id : String) (gw info : Dict Scalar) (code : ℕ) (s : Store)
      → get r now (store_status r id gw (answer code (str "success") (fields info)) s) (gateway id)
        ≡ some (gw_dump (update_progress gw info))
  reported_entry id gw info code s =
      get-store_status r now id id gw (answer code (str "success") (fields info)) s
      ∙ if_true _ _ _ (eq_refl id)

  unregistered :
      (x : Outcome Scalar × Store) (id : Scalar) (s : Store)
      → Unregisters r now s x
      → x.0 ≡ ok id
      → get r now x.1 (gateway (render id)) ≡ none
  unregistered (ok j, s') id s h e =
      let same : j ≡ id = cc e in
      subst (λ i. get r now s' (gateway (render i)) ≡ none) same
        (h (render j) ∙ if_true _ _ _ (eq_refl (render j)))
  unregistered (refuse c d, s') id s h e = cc e
  unregistered (crash, s') id s h e = cc e

  -- A gateway that is unregistered while the monitor waits for its successful report is gone until
  -- the report comes, and is then in the registry again, with the entry that the monitor had read,
  -- updated by the report.
  pub store_status_revives :
      (cfg : Config) (req : Request) (id : Scalar) (gw info : Dict Scalar) (code : ℕ) (s : Store)
      → (unregister r cfg req now s).0 ≡ ok id
      → let gone = (unregister r cfg req now s).1 in
        let reply = answer code (str "success") (fields info) in
        (get r now gone (gateway (render id)) ≡ none)
        × (get r now (store_status r (render id) gw reply gone) (gateway (render id))
            ≡ some (gw_dump (update_progress gw info)))
  store_status_revives cfg req id gw info code s h = (
    unregistered (unregister r cfg req now s) id s (unregister-Unregisters r now cfg req s) h,
    reported_entry (render id) gw info code (unregister r cfg req now s).1,
  )

  kept_free :
      (state old new : Scalar)
      → is_text "up" state ≡ false
      → new ≡ reported_state state old
      → (is_text "created" old || is_text "stopped" old) ≡ true
      → (is_text "created" new || is_text "stopped" new) ≡ true
  kept_free state old new down e free = elim (Bool-cases (is_text "down" state)) [
    | inl f ↦
        let stopped : new ≡ str "stopped" = e ∙ if_false _ _ _ down ∙ if_true _ _ _ f in
        ap (λ v. is_text "created" v || is_text "stopped" v) stopped
    | inr f ↦
        let same : new ≡ old = e ∙ if_false _ _ _ down ∙ if_false _ _ _ f in
        ap (λ v. is_text "created" v || is_text "stopped" v) same ∙ free
  ]

  -- A gateway that is started while the monitor waits for a report which does not say "up" yet, and
  -- whose entry the monitor had read as free, is started in the registry until the report comes, and
  -- is then one that may be allocated again.
  pub store_status_frees :
      (job : Job) (started code : ℕ) (sent gw info : Dict Scalar) (s : Store)
      → is_available gw ≡ true
      → is_text "up" (field "gw_state" info) ≡ false
      → let s₁ = (start_finish r job (answer started (str "success") (fields sent)) now s).1 in
        let s₂ = store_status r job.gw_id gw (answer code (str "success") (fields info)) s₁ in
        (is_available (gw_load (get r now s₁ (gateway job.gw_id))) ≡ false)
        × (is_available (gw_load (get r now s₂ (gateway job.gw_id))) ≡ true)
  unfolding is_available
  store_status_frees job started code sent gw info s free down =
      let s₁ = (start_finish r job (answer started (str "success") (fields sent)) now s).1 in
      let entry = reported_entry job.gw_id gw info code s₁ in
      let state =
        ap (λ v. field "gw_state" (gw_load v)) entry
        ∙ field-gw_load-gw_dump "gw_state" (update_progress gw info)
        ∙ (update_progress-Reported gw info).state in
      (
        (start_finish-Started r job now started (fields sent) s).taken now,
        kept_free (field "gw_state" info) (field "gw_state" gw) _ down state free,
      )
