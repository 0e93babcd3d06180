-- ===== src/Scaler/Cleanup.antt =====
-- deploy/scaler/src/ScalerMedia.py: the cleanup that meets a gateway which downScale has marked.
use sipmedia_gw.Prelude.{
  ℕ, zero, suc, ◌<◌, ◌≡◌, refl, ap, ◌∙◌, subst, arith, String, Bool, false, Option, none, some,
  List, [], ◌∷◌, Bool-cases, Option-cases, inl, inr, length, lookup,
}
use sipmedia_gw.Text.{is_empty}
use sipmedia_gw.Proxy.Entry.{truthy, render}
use sipmedia_gw.Proxy.Entry.State.{field-insert}
use sipmedia_gw.Scaler.{
  Entry, is_idle, address, kept, taken, stopping_entry, down_scale, is_stale, stale, joined,
}

module _ (parse : String → Option (Bool × ℕ)) (threshold now : ℕ) where
  joined-none : (ip : String) (o : Option Bool) → joined ip o none ≡ none
  joined-none ip none = refl
  joined-none ip (some b) = refl

  stale_rest :
      (gw : Entry) (gws : List Entry)
      → stale parse threshold now gws ≡ none
      → stale parse threshold now (gw ∷ gws) ≡ none
  unfolding stale
  stale_rest gw gws h = elim (Option-cases (lookup "gw_ip" gw)) [
    | inl e ↦ rw (stale, e) refl
    | inr (ip, e) ↦
        rw (stale, e)
          (ap (joined (render ip) (is_stale parse threshold now gw)) h
            ∙ joined-none (render ip) (is_stale parse threshold now gw))
  ]

  stale_first :
      (gw : Entry) (gws : List Entry)
      → is_stale parse threshold now gw ≡ none
      → stale parse threshold now (gw ∷ gws) ≡ none
  unfolding stale
  stale_first gw gws h = elim (Option-cases (lookup "gw_ip" gw)) [
    | inl e ↦ rw (stale, e) refl
    | inr (ip, e) ↦ rw (stale, e) (ap (λ o. joined (render ip) o (stale parse threshold now gws)) h)
  ]

  is_stale-stopping_entry :
      (clock : String) (t : ℕ) (gw : Entry)
      → parse clock ≡ some (false, t)
      → is_empty clock ≡ false
      → is_stale parse threshold now (stopping_entry clock gw) ≡ none
  unfolding is_stale stopping_entry truthy render
  is_stale-stopping_entry clock t gw naive given = simp (field-insert, naive, given)

  abbrev pub Fails : List String × List Entry → Type 0
  Fails (ips, after) = 0 < length ips → stale parse threshold now after ≡ none

  kept-Fails :
      (gw : Entry) (o : Option (List String × List Entry)) (r : List String × List Entry)
      → ((q : List String × List Entry) → o ≡ some q → Fails q)
      → kept gw o ≡ some r
      → Fails r
  kept-Fails gw none r f h = cc h
  kept-Fails gw (some (ips, after)) r f h =
      let same : (ips, gw ∷ after) ≡ r = cc h in
      subst Fails same (λ l. stale_rest gw after (f (ips, after) refl l))

  taken-Fails :
      (ip clock : String) (t : ℕ) (gw : Entry) (o : Option (List String × List Entry))
      (r : List String × List Entry)
      → parse clock ≡ some (false, t)
      → is_empty clock ≡ false
      → taken ip (kept (stopping_entry clock gw) o) ≡ some r
      → Fails r
  taken-Fails ip clock t gw none r naive given h = cc h
  taken-Fails ip clock t gw (some (ips, after)) r naive given h =
      let same : (ip ∷ ips, stopping_entry clock gw ∷ after) ≡ r = cc h in
      subst Fails same (λ l.
        stale_first (stopping_entry clock gw) after
          (is_stale-stopping_entry clock t gw naive given))

  -- With a clock whose text is not empty and reads as a time without a zone, the cleanup raises on
  -- the entries that a downScale without an exception leaves, as soon as it has stopped a gateway,
  -- whatever the threshold and the time.
  pub down_scale-Fails :
      (clock : String) (t : ℕ) (gws : List Entry) (n : ℕ) (r : List String × List Entry)
      → parse clock ≡ some (false, t)
      → is_empty clock ≡ false
      → down_scale clock gws n ≡ some r
      → Fails r
  unfolding down_scale
  down_scale-Fails clock t gws zero r naive given h =
      let same : ([], gws) ≡ r = cc h in subst Fails same (λ l. ground (arith, l))
  down_scale-Fails clock t [] (suc n) r naive given h =
      let same : ([], []) ≡ r = cc h in subst Fails same (λ l. ground (arith, l))
  down_scale-Fails clock t (gw ∷ gws) (suc n) r naive given h = elim (Option-cases (address gw)) [
    | inl e ↦ cc (rw (down_scale, e) at h)
    | inr (ip, e) ↦ elim (Bool-cases (is_idle gw)) [
      | inl f ↦
          taken-Fails ip clock t gw (down_scale clock gws n) r naive given
            (rw (down_scale, e, f) at h)
      | inr f ↦
          kept-Fails gw (down_scale clock gws (suc n)) r
            (λ q k. down_scale-Fails clock t gws (suc n) q naive given k)
            (rw (down_scale, e, f) at h)
    ]
  ]
