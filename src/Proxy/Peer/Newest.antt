-- ===== src/Proxy/Peer/Newest.antt =====
-- deploy/proxyAPI/proxy.py: which match /gateway_id answers.
use sipmedia_gw.Prelude.{
  ℕ, String, ◌≡◌, refl, sym, ap, subst, ◌∙◌, Bool, true, false, false≢true, not, ◌&&◌, ◌||◌, Option,
  none, some, List, [], ◌∷◌, ◌==◌, Dict, All, if◌then◌else◌, Bool-cases, inl, inr, ◌⊎◌, eq_refl,
}
use sipmedia_gw.Text.{is_empty, text_gt, text_gt_trans, text_gt_irrefl}
use sipmedia_gw.Proxy.Entry.{Scalar, null, str, num, flag, Raw, is_held, field, clean_part, gw_load}
use sipmedia_gw.Proxy.Redis.{Redis, gateway}
use sipmedia_gw.Proxy.Access.{Outcome, ok, ◌>>=◌, >>=-eq-ok, get}
use sipmedia_gw.Proxy.Pool.Allocate.{key_gw_id}
use sipmedia_gw.Proxy.Pool.Monitor.Laws.{member}
use sipmedia_gw.Proxy.Peer.{Best, as_text, address, newer, consider, find_peer}

abbrev pub text_of : Scalar → String
text_of (str t) = t
text_of _ = ""

abbrev peer_matches : String → String → Bool
peer_matches wanted peer = not (is_empty peer) && address peer == wanted

-- Whether an entry is that of a call with the wanted endpoint.
abbrev pub serves : String → Dict Scalar → Bool
serves wanted gw = peer_matches wanted (text_of (clean_part (field "peer_uri" gw)))

-- What is answered for an entry.
abbrev pub best_of : String → Dict Scalar → Best
best_of id gw = record {
  gw_id = key_gw_id id;
  room = clean_part (field "room" gw);
  browsing = clean_part (field "browsing" gw);
  call_started = text_of (clean_part (field "call_started" gw));
}

ok-injective : (a b : Option Best) → ok a ≡ ok b → a ≡ b
ok-injective a b h = cc

abbrev judged :
    Scalar → Scalar → (String → Bool) → (String → Best) → Option Best → Outcome (Option Best)
judged p t w k best = as_text p >>= λ peer.
    if w peer then (as_text t >>= λ started. ok (newer (k started) best)) else ok best

abbrev judgement : Scalar → Scalar → (String → Bool) → (String → Best) → Option Best → Option Best
judgement p t w k best = if w (text_of p) then newer (k (text_of t)) best else best

started-judgement :
    (u : String) (t : Scalar) (k : String → Best) (best o : Option Best)
    → (as_text t >>= λ started. ok (newer (k started) best)) ≡ ok o
    → o ≡ newer (k (text_of t)) best
started-judgement u null k best o h = sym (ok-injective _ _ h)
started-judgement u (str x) k best o h = sym (ok-injective _ _ h)
started-judgement u (num n) k best o h = cc
started-judgement u (flag b) k best o h = cc

peer-judgement :
    (u : String) (t : Scalar) (w : String → Bool) (k : String → Best) (best o : Option Best)
    → (if w u then (as_text t >>= λ started. ok (newer (k started) best)) else ok best) ≡ ok o
    → o ≡ (if w u then newer (k (text_of t)) best else best)
peer-judgement u t w k best o h = elim (Bool-cases (w u)) [
  | inl e ↦ rw e (started-judgement u t k best o (rw e at h))
  | inr e ↦ rw e (sym (ok-injective _ _ (rw e at h)))
]

judged-judgement :
    (p t : Scalar) (w : String → Bool) (k : String → Best) (best o : Option Best)
    → judged p t w k best ≡ ok o
    → o ≡ judgement p t w k best
judged-judgement null t w k best o h = peer-judgement "" t w k best o h
judged-judgement (str u) t w k best o h = peer-judgement u t w k best o h
judged-judgement (num n) t w k best o h = cc
judged-judgement (flag b) t w k best o h = cc

consider-newer :
    (wanted id : String) (gw : Dict Scalar) (best o : Option Best)
    → consider wanted id gw best ≡ ok o
    → o ≡ (if serves wanted gw then newer (best_of id gw) best else best)
unfolding consider
consider-newer wanted id gw best o h =
    judged-judgement (clean_part (field "peer_uri" gw)) (clean_part (field "call_started" gw))
      (peer_matches wanted)
      (λ started. record {
        gw_id = key_gw_id id;
        room = clean_part (field "room" gw);
        browsing = clean_part (field "browsing" gw);
        call_started = started;
      })
      best o h

or_true : (b : Bool) → b || true ≡ true
or_true true = refl
or_true false = refl

newer_cases : (b : Best) (o : Option Best) → (newer b o ≡ some b) ⊎ (newer b o ≡ o)
newer_cases b none = inl refl
newer_cases b (some best) = elim (Bool-cases (text_gt b.call_started best.call_started)) [
  | inl e ↦ inl (rw e)
  | inr e ↦ inr (rw e)
]

-- A start that is not newer than the best.
abbrev Beaten : String → Option Best → Type 0
Beaten t none = ⊥
Beaten t (some b) = text_gt t b.call_started ≡ false

Beaten-newer : (t : String) (b : Best) (o : Option Best) → Beaten t o → Beaten t (newer b o)
Beaten-newer t b none h = absurd h
Beaten-newer t b (some best) h = elim (Bool-cases (text_gt b.call_started best.call_started)) [
  | inr e ↦ rw e h
  | inl e ↦ rw e (elim (Bool-cases (text_gt t b.call_started)) [
    | inr k ↦ k
    | inl k ↦ absurd (false≢true (sym h ∙ text_gt_trans t b.call_started best.call_started k e))
  ])
]

Beaten-newer_self : (b : Best) (o : Option Best) → Beaten b.call_started (newer b o)
Beaten-newer_self b none = text_gt_irrefl b.call_started
Beaten-newer_self b (some best) = elim (Bool-cases (text_gt b.call_started best.call_started)) [
  | inl e ↦ rw e (text_gt_irrefl b.call_started)
  | inr e ↦ rw e e
]

module _ (r : Redis) (wanted : String) (now : ℕ) (s : r.Store) where
  abbrev read : String → Option Raw
  read id = get r now s (gateway id)

  abbrev entry : String → Dict Scalar
  entry id = gw_load (read id)

  -- Whether the scan takes an id into account.
  abbrev pub eligible : String → Bool
  eligible id = is_held (read id) && serves wanted (entry id)

  abbrev started : String → String
  started id = (best_of id (entry id)).call_started

  abbrev scan : List String → Option Best → Option Best
  scan [] best = best
  scan (id ∷ ids) best = scan ids (if eligible id then newer (best_of id (entry id)) best else best)

  find_peer-scan :
      (ids : List String) (best o : Option Best)
      → find_peer r wanted now ids best s ≡ ok o
      → o ≡ scan ids best
  unfolding find_peer
  find_peer-scan [] best o h = sym (ok-injective _ _ h)
  find_peer-scan (id ∷ ids) best o h = elim (Bool-cases (is_held (read id))) [
    | inl held ↦
        let h₀ = rw held at h in
        let (next, judged_ok, h₁) = >>=-eq-ok (consider wanted id (entry id) best) _ h₀ in
        rw held (
          find_peer-scan ids next o h₁
          ∙ ap (scan ids) (consider-newer wanted id (entry id) best next judged_ok))
    | inr gone_by ↦ rw gone_by (find_peer-scan ids best o (rw gone_by at h))
  ]

  Beaten-scan :
      (t : String) (ids : List String) (o : Option Best) → Beaten t o → Beaten t (scan ids o)
  Beaten-scan t [] o h = h
  Beaten-scan t (id ∷ ids) o h = elim (Bool-cases (eligible id)) [
    | inl e ↦ rw e (Beaten-scan t ids _ (Beaten-newer t (best_of id (entry id)) o h))
    | inr e ↦ rw e (Beaten-scan t ids o h)
  ]

  scan_beats :
      (ids : List String) (o : Option Best)
      → All (λ j. eligible j ≡ true → Beaten (started j) (scan ids o)) ids
  scan_beats [] o = tt
  scan_beats (id ∷ ids) o = (
    λ e. rw e (Beaten-scan (started id) ids _ (Beaten-newer_self (best_of id (entry id)) o)),
    scan_beats ids _,
  )

  -- Where a best match comes from.
  abbrev Origin : List String → Option Best → Type 0
  Origin ids none = Unit
  Origin ids (some b) =
      (id : String) × (member id ids ≡ true) × (eligible id ≡ true) × (b ≡ best_of id (entry id))

  Origin-cons :
      (j : String) (ids : List String) (o : Option Best) → Origin ids o → Origin (j ∷ ids) o
  Origin-cons j ids none h = tt
  Origin-cons j ids (some b) (id, m, e, q) = (id, rw m (or_true (j == id)), e, q)

  Origin-scan : (ids : List String) (o : Option Best) → (scan ids o ≡ o) ⊎ Origin ids (scan ids o)
  Origin-scan [] o = inl refl
  Origin-scan (id ∷ ids) o = elim (Bool-cases (eligible id)) [
    | inr e ↦
        rw e (elim (Origin-scan ids o) [ inl q ↦ inl q | inr h ↦ inr (Origin-cons id ids _ h) ])
    | inl e ↦ rw e (elim (Origin-scan ids (newer (best_of id (entry id)) o)) [
      | inr h ↦ inr (Origin-cons id ids _ h)
      | inl q ↦ elim (newer_cases (best_of id (entry id)) o) [
        | inl k ↦ inr (subst (Origin (id ∷ ids)) (sym (q ∙ k)) (id, rw (eq_refl id), e, refl))
        | inr k ↦ inl (q ∙ k)
      ]
    ])
  ]

  -- What is answered: nothing only if no entry is that of a call with the endpoint; otherwise such
  -- an entry of which no other one's call started later.
  abbrev pub Newest : List String → Option Best → Type 0
  Newest ids none = All (λ j. eligible j ≡ false) ids
  Newest ids (some b) =
      Origin ids (some b)
      × All (λ j. eligible j ≡ true → text_gt (started j) b.call_started ≡ false) ids

  none_eligible :
      (ids : List String) → All (λ j. eligible j ≡ true → ⊥) ids → All (λ j. eligible j ≡ false) ids
  none_eligible [] h = tt
  none_eligible (j ∷ ids) h =
      (elim (Bool-cases (eligible j)) [ inl e ↦ absurd (h.0 e) | inr e ↦ e ], none_eligible ids h.1)

  Newest-scan : (ids : List String) (o : Option Best) → o ≡ scan ids none → Newest ids o
  Newest-scan ids none q = none_eligible ids (
      subst (λ x. All (λ j. eligible j ≡ true → Beaten (started j) x) ids) (sym q)
        (scan_beats ids none))
  Newest-scan ids (some b) q = (
    elim (Origin-scan ids none) [ inl k ↦ cc | inr h ↦ subst (Origin ids) (sym q) h ],
    subst (λ x. All (λ j. eligible j ≡ true → Beaten (started j) x) ids) (sym q)
        (scan_beats ids none),
  )

  -- A search for an endpoint that ends without an exception finds the call with it that started
  -- last, by the text of its start, and nothing only if there is no such call.
  pub find_peer-Newest :
      (ids : List String) (o : Option Best)
      → find_peer r wanted now ids none s ≡ ok o
      → Newest ids o
  find_peer-Newest ids o h = Newest-scan ids o (find_peer-scan ids none o h)
