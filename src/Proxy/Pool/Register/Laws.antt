-- ===== src/Proxy/Pool/Register/Laws.antt =====
-- deploy/proxyAPI/proxy.py: what a registration leaves, and what the end of one does.
use sipmedia_gw.Prelude.{
  ℕ, ◌+◌, ◌<◌, String, ◌≡◌, refl, ap, ◌∙◌, false, not, ◌||◌, Option, none, some, Dict, lookup, ◌==◌,
  arith, if◌then◌else◌, Bool-cases, inl, inr, lt→leb,
}
use sipmedia_gw.Text.{parse_nat}
use sipmedia_gw.Proxy.Entry.{Scalar, str, Raw, plain, field, truthy, render, gw_load, gw_dump}
use sipmedia_gw.Proxy.Entry.State.{field-insert}
use sipmedia_gw.Proxy.Entry.Dump.{field-gw_load-gw_dump}
use sipmedia_gw.Proxy.Redis.{Redis, Key, gateway, pairing, key_eq, live, value_of}
use sipmedia_gw.Proxy.Access.{Config, Request, Outcome, ok, refuse, crash, authorize, get}
use sipmedia_gw.Proxy.Access.Get.{key_eq_refl, get-put_self, get-put, get-delete}
use sipmedia_gw.Proxy.Pool.Register.{
  registered_entry, or_new, kind_of, ttl_of, positive, id_of, register_code, register_as,
  register_then, register, unregister_id, unregister_body, unregister, new_code, known_code,
  storable,
}

positive-lt : (o : Option ℕ) (n : ℕ) → positive o ≡ some n → 0 < n
positive-lt none n h = cc
positive-lt (some m) n h = ground arith

ttl_of-lt : (v : Scalar) (n : ℕ) → ttl_of v ≡ some n → 0 < n
unfolding ttl_of
ttl_of-lt (Scalar.num m) n h = positive-lt (some m) n h
ttl_of-lt (str t) n h = positive-lt (parse_nat t) n h
ttl_of-lt Scalar.null n h = cc
ttl_of-lt (Scalar.flag b) n h = cc

module _ (r : Redis) (body : Dict Scalar) (fresh stamp : String) (now : ℕ) where
  open r use {Store, cell, put, setex, cell-setex}

  abbrev pub entry : Scalar → Store → Dict Scalar
  entry id s = gw_load (get r now s (gateway (render id)))

  -- What an accepted registration leaves: the entry has the address and the kind that were sent and
  -- the rest of what was there (of a new entry, if nothing was), and the pairing code that is
  -- answered leads to the gateway.
  pub record Registered (id code : Scalar) (s s' : Store) : Type 0 where
    pub address : field "gw_ip" (entry id s') ≡ field "gw_ip" body
    pub kind : field "gw_type" (entry id s') ≡ kind_of (lookup "gw_type" body)
    pub kept :
        (k : String)
        → ("gw_ip" == k) ≡ false
        → ("gw_type" == k) ≡ false
        → field k (entry id s') ≡ field k (or_new stamp (entry id s))
    pub to_gateway : Raw
    pub held : get r now s' (pairing (render code)) ≡ some to_gateway
    pub leads : render (id_of to_gateway) ≡ render id

  -- What the first half of a registration leaves.
  record Coded (id code : Scalar) (s s' : Store) : Type 0 where
    pub to_gateway : Raw
    pub held : get r now s' (pairing (render code)) ≡ some to_gateway
    pub leads : render (id_of to_gateway) ≡ render id
    pub gateways : (g : String) → get r now s' (gateway g) ≡ get r now s (gateway g)

  -- No gateway's entry changed.
  abbrev pub Untouched : Store → Store → Type 0
  Untouched s s' = (g : String) → get r now s' (gateway g) ≡ get r now s (gateway g)

  abbrev Codes : Store → Outcome (Scalar × Scalar) × Store → Type 0
  Codes s (ok (id, code), s') = Coded id code s s'
  Codes s (refuse c d, s') = Untouched s s'
  Codes s (crash, s') = ⊥

  get-setex :
      (ttl : ℕ) (k j : Key) (v : Raw) (s : Store)
      → 0 < ttl
      → get r now (setex now k ttl v s) j ≡ (if key_eq k j then some v else get r now s j)
  unfolding get
  get-setex ttl k j v s pos =
      ap (λ c. value_of (live now c)) (cell-setex now ttl k j v s)
      ∙ elim (Bool-cases (key_eq k j)) [
        | inl e ↦ rw e (rw (lt→leb now (now + ttl) (omega arith)))
        | inr e ↦ rw e
      ]

  new_code-Codes :
      (ttl : Option ℕ) (s : Store)
      → ((n : ℕ) → ttl ≡ some n → 0 < n)
      → Codes s (new_code r body fresh now ttl s)
  unfolding render
  new_code-Codes none s pos = λ g. refl
  new_code-Codes (some n) s pos = elim (Bool-cases (storable (field "gw_id" body))) [
    | inr e ↦ rw e (λ g. refl)
    | inl e ↦ rw e (record {
      to_gateway = plain (render (field "gw_id" body));
      held =
          get-setex n (pairing fresh) (pairing fresh) _ s (pos n refl)
          ∙ rw (key_eq_refl (pairing fresh));
      leads = refl;
      gateways = λ g. get-setex n (pairing fresh) (gateway g) _ s (pos n refl);
    })
  ]

  abbrev timeout : Scalar
  timeout = field "pairing_timeout" body

  register_code-Codes : (s : Store) → Codes s (register_code r body fresh now s)
  unfolding register_code
  register_code-Codes s = elim (Bool-cases (truthy (field "pairing_code" body))) [
    | inr e ↦ rw e (new_code-Codes (ttl_of timeout) s (ttl_of-lt timeout))
    | inl e ↦ rw e (by_known (get r now s (pairing (render (field "pairing_code" body)))) refl)
  ]
    where
      by_known :
          (o : Option Raw)
          → get r now s (pairing (render (field "pairing_code" body))) ≡ o
          → Codes s (known_code r body fresh now o s)
      by_known none e = new_code-Codes (ttl_of timeout) s (ttl_of-lt timeout)
      by_known (some v) e = record { to_gateway = v; held = e; leads = refl; gateways = λ g. refl }

  -- Every way in which a registration can end.
  abbrev pub Registers : Store → Outcome (Scalar × Scalar) × Store → Type 0
  Registers s (ok (id, code), s') = Registered id code s s'
  Registers s (refuse c d, s') = Untouched s s'
  Registers s (crash, s') = ⊥

  put-Registered :
      (id code : Scalar) (s s₁ s' : Store)
      → Coded id code s s₁
      → s'
        ≡ put
            (gateway (render id))
            (gw_dump (
              registered_entry
                (field "gw_ip" body)
                (kind_of (lookup "gw_type" body))
                stamp
                (entry id s₁)))
            s₁
      → Registered id code s s'
  unfolding registered_entry
  put-Registered id code s s₁ s' c e = rw e (record {
    address = stored "gw_ip" ∙ simp field-insert;
    kind = stored "gw_type" ∙ simp field-insert;
    kept = λ k ip kind.
        stored k
        ∙ simp field-insert
            (rw (kind, ip) (ap (λ x. field k (or_new stamp (gw_load x))) (c.gateways (render id))));
    to_gateway = c.to_gateway;
    held = get-put r (gateway (render id)) (pairing (render code)) _ now s₁ ∙ c.held;
    leads = c.leads;
  })
    where
      written : Dict Scalar
      written =
          registered_entry (field "gw_ip" body) (kind_of (lookup "gw_type" body)) stamp
            (entry id s₁)

      stored :
          (k : String)
          → field k (entry id (put (gateway (render id)) (gw_dump written) s₁)) ≡ field k written
      stored k =
          rw (get-put_self r (gateway (render id)) (gw_dump written) now s₁)
            (field-gw_load-gw_dump k written)

  register_then-Registers :
      (s : Store) (x : Outcome (Scalar × Scalar) × Store)
      → Codes s x
      → Registers s (register_then r body stamp now x)
  unfolding register_as
  register_then-Registers s (refuse c d, s₁) h = h
  register_then-Registers s (crash, s₁) h = h
  register_then-Registers s (ok (id, code), s₁) h =
      elim (Bool-cases (not (truthy (field "gw_ip" body)) || not (truthy id))) [
        | inl e ↦ rw e h.gateways
        | inr e ↦ rw e (put-Registered id code s s₁ _ h refl)
      ]

  -- A registration whose body is a JSON object ends in one of two ways, and never in an uncaught
  -- exception: accepted, it leaves the entry and the pairing code that `Registered` describes;
  -- refused, it leaves every gateway's entry as it was.
  pub register-Registers :
      (cfg : Config) (req : Request) (s : Store)
      → req.body ≡ some body
      → Registers s (register r cfg req fresh stamp now s)
  unfolding register
  register-Registers cfg req s e = elim (Bool-cases (authorize cfg req)) [
    | inr refused ↦ rw refused (λ g. refl)
    | inl opened ↦
        rw (opened, e)
          (register_then-Registers s (register_code r body fresh now s) (register_code-Codes s))
  ]

module _ (r : Redis) (now : ℕ) where
  open r use {Store, delete}

  -- Every way in which an unregistration can end.
  abbrev pub Unregisters : Store → Outcome Scalar × Store → Type 0
  Unregisters s (ok id, s') =
      (g : String)
      → get r now s' (gateway g) ≡ (if render id == g then none else get r now s (gateway g))
  Unregisters s (refuse c d, s') = s' ≡ s
  Unregisters s (crash, s') = ⊥

  unregister_body-Unregisters :
      (o : Option (Dict Scalar)) (s : Store) → Unregisters s (unregister_body r o now s)
  unregister_body-Unregisters none s = refl
  unregister_body-Unregisters (some body) s = elim (Bool-cases (truthy (field "gw_id" body))) [
    | inr lacks ↦ rw lacks
    | inl named ↦ rw named (by_held (get r now s (gateway (render (field "gw_id" body)))))
  ]
    where
      by_held : (o : Option Raw) → Unregisters s (unregister_id r (field "gw_id" body) o s)
      by_held none = refl
      by_held (some v) = λ g. get-delete r (gateway (render (field "gw_id" body))) (gateway g) now s

  -- An accepted unregistration ends the entry of the gateway that it names and no other; any other
  -- end leaves the registry as it was, and no exception goes uncaught.
  pub unregister-Unregisters :
      (cfg : Config) (req : Request) (s : Store) → Unregisters s (unregister r cfg req now s)
  unfolding unregister
  unregister-Unregisters cfg req s = elim (Bool-cases (authorize cfg req)) [
    | inr refused ↦ rw refused
    | inl opened ↦ rw opened (unregister_body-Unregisters req.body s)
  ]
