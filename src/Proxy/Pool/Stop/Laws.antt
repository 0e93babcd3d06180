-- ===== src/Proxy/Pool/Stop/Laws.antt =====
-- deploy/proxyAPI/proxy.py: what a stop leaves of the entry.
use sipmedia_gw.Prelude.{ℕ, String, ◌≡◌, ◌≢◌, refl, ◌∙◌, false, Dict}
use sipmedia_gw.Proxy.Entry.{Scalar, str, field, gw_load, derive_state, gone, clean_part}
use sipmedia_gw.Proxy.Entry.State.{field-insert}
use sipmedia_gw.Proxy.Entry.Dump.{field-gw_load-gw_dump}
use sipmedia_gw.Proxy.Redis.{Redis, gateway}
use sipmedia_gw.Proxy.Access.{get}
use sipmedia_gw.Proxy.Access.Get.{get-put_self}
use sipmedia_gw.Proxy.Pool.Answer.{Reply, timeout, broken, garbled, answer, Payload}
use sipmedia_gw.Proxy.Pool.Allocate.{is_available}
use sipmedia_gw.Proxy.Pool.Stop.{
  Verdict, success, error, unparsed, Halt, stop_verdict, stopped_entry, stop_finish, stop_with,
}

module _ (r : Redis) (h : Halt) where
  open r use {Store, put}

  abbrev halted : ℕ → Store → Dict Scalar
  halted now s = gw_load (get r now s (gateway h.gw_id))

  -- What a stop leaves: the gateway is shown as gone, serves nobody and cannot be allocated, at the
  -- address and of the kind that it had when it was read.
  pub record Stopped (s : Store) : Type 0 where
    pub shown : (now : ℕ) → derive_state (halted now s) ≡ gone
    pub taken : (now : ℕ) → is_available (halted now s) ≡ false
    pub room : (now : ℕ) → field "room" (halted now s) ≡ str ""
    pub peer : (now : ℕ) → field "peer_uri" (halted now s) ≡ str ""
    pub call_started : (now : ℕ) → field "call_started" (halted now s) ≡ str ""
    pub address : (now : ℕ) → field "gw_ip" (halted now s) ≡ field "gw_ip" h.entry
    pub kind : (now : ℕ) → field "gw_type" (halted now s) ≡ field "gw_type" h.entry

  module _ (code : ℕ) (status : Scalar) (info : Payload) (s : Store)
      (done : stop_verdict info ≡ success) where
    stored :
        (now : ℕ) (k : String)
        → field k (halted now (stop_finish r h (answer code status info) s).1)
          ≡ field k (stopped_entry h.entry)
    unfolding stop_finish
    stored now k =
        rw done (rw (get-put_self r (gateway h.gw_id) _ now s) (field-gw_load-gw_dump k _))

    stored_state :
        (now : ℕ)
        → field "gw_state" (halted now (stop_finish r h (answer code status info) s).1)
          ≡ str "deleted"
    stored_state now = stored now "gw_state" ∙ unfold stopped_entry in simp field-insert

    -- A gateway whose answer says that it is stopping or stopped is taken off.
    pub stop_finish-Stopped : Stopped (stop_finish r h (answer code status info) s).1
    unfolding stopped_entry
    stop_finish-Stopped = record {
      shown = λ now. unfold derive_state clean_part in rw (stored_state now);
      taken = λ now. unfold is_available in rw (stored_state now);
      room = λ now. stored now "room" ∙ simp field-insert;
      peer = λ now. stored now "peer_uri" ∙ simp field-insert;
      call_started = λ now. stored now "call_started" ∙ simp field-insert;
      address = λ now. stored now "gw_ip" ∙ simp field-insert;
      kind = λ now. stored now "gw_type" ∙ simp field-insert;
    }

  -- Any other answer changes nothing in the registry.
  pub stop_finish_failed :
      (reply : Reply) (s : Store)
      → ((code : ℕ) (status : Scalar) (info : Payload)
          → reply ≡ answer code status info
          → stop_verdict info ≢ success)
      → (stop_finish r h reply s).1 ≡ s
  unfolding stop_finish
  stop_finish_failed timeout s other = refl
  stop_finish_failed broken s other = refl
  stop_finish_failed garbled s other = refl
  stop_finish_failed (answer code status info) s other =
      by_verdict (stop_verdict info) (other code status info refl)
    where
      by_verdict : (v : Verdict) → v ≢ success → (stop_with r h code v s).1 ≡ s
      by_verdict success apart = absurd (apart refl)
      by_verdict error apart = refl
      by_verdict unparsed apart = refl
