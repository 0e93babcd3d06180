-- ===== src/Proxy/Pool/Allocate/Start.antt =====
-- deploy/proxyAPI/proxy.py: which gateway a start takes, and what becomes of its entry.
use mathlib.Core.Option.{some-injective}
use sipmedia_gw.Prelude.{
  ℕ, String, ◌≡◌, ◌≢◌, refl, sym, ap, subst, ◌∙◌, true, false, Option, none, some, List, [], ◌∷◌,
  ◌++◌, Dict, All, lookup, Bool-cases, Option-cases, inl, inr,
}
use sipmedia_gw.Proxy.Entry.{
  Scalar, str, field, is_text, gw_load, derive_state, free, call, truthy, clean_part,
}
use sipmedia_gw.Proxy.Entry.State.{field-insert, is_text→eq, derive_state-free, derive_state-call}
use sipmedia_gw.Proxy.Entry.Dump.{field-gw_load-gw_dump}
use sipmedia_gw.Proxy.Redis.{Redis, gateway}
use sipmedia_gw.Proxy.Access.{Config, Request, ok, >>=-eq-ok, authorize, get}
use sipmedia_gw.Proxy.Access.Get.{get-put_self}
use sipmedia_gw.Proxy.Pool.Answer.{Reply, timeout, broken, garbled, answer, Payload}
use sipmedia_gw.Proxy.Pool.Allocate.{
  need_ip, is_available, started_entry, Job, find_available, start_pick, start_finish, allocated,
  json, need, key_gw_id,
}

-- An entry is available exactly when the console shows it as free.
pub is_available-derive_state : (gw : Dict Scalar) → is_available gw ≡ true → derive_state gw ≡ free
unfolding is_available
is_available-derive_state gw h =
    (derive_state-free gw).1 (elim (Bool-cases (is_text "created" (field "gw_state" gw))) [
      | inl e ↦ inl (is_text→eq _ _ e)
      | inr e ↦ inr (is_text→eq "stopped" (field "gw_state" gw) (rw e at h))
    ])

ok-injective {ℓ} : {A : Type ℓ} (a b : A) → ok a ≡ ok b → a ≡ b
ok-injective a b h = cc

module _ (r : Redis) (now : ℕ) (s : r.Store) where
  abbrev pub entry : String → Dict Scalar
  entry id = gw_load (get r now s (gateway id))

  -- The scan stops at the first available entry: those before it are readable and not available.
  pub data Found (ids : List String) (id : String) (ip : Scalar) : Type 0 where
    found :
        (before after : List String)
        → ids ≡ before ++ id ∷ after
        → All (λ j. is_available (entry j) ≡ false) before
        → is_available (entry id) ≡ true
        → lookup "gw_ip" (entry id) ≡ some ip
        → Found ids id ip

  -- What a scan that ends says of the ids.
  abbrev pub Finds : List String → Option (String × Scalar) → Type 0
  Finds ids none = All (λ j. is_available (entry j) ≡ false) ids
  Finds ids (some (id, ip)) = Found ids id ip

  skip :
      (j : String) (ids : List String) (o : Option (String × Scalar))
      → is_available (entry j) ≡ false
      → Finds ids o
      → Finds (j ∷ ids) o
  skip j ids none e h = (e, h)
  skip j ids (some (id, ip)) e (found before after split none_before here address) =
      found (j ∷ before) after (ap (λ (l : List String). j ∷ l) split) (e, none_before) here address

  -- An allocation that ends without an exception takes the first gateway of the scan whose state is
  -- free, with its address, and finds none only if none of them is free.
  pub find_available-Finds :
      (ids : List String) (o : Option (String × Scalar))
      → find_available r now ids s ≡ ok o
      → Finds ids o
  unfolding find_available
  find_available-Finds [] o h = elim (Option-cases o) [
    | inl e ↦ rw e tt
    | inr (v, e) ↦ cc (rw e at h)
  ]
  find_available-Finds (id ∷ ids) o h = elim (Option-cases (lookup "gw_ip" (entry id))) [
    | inl lacks ↦ cc (rw (need_ip, lacks) at h)
    | inr (ip, held) ↦ elim (Bool-cases (is_available (entry id))) [
      | inl free_one ↦
          let here : some (id, ip) ≡ o = ok-injective _ _ (rw (need_ip, held, free_one) at h) in
          subst (Finds (id ∷ ids)) here (found [] ids refl tt free_one held)
      | inr taken ↦
          skip id ids o taken (find_available-Finds ids o (rw (need_ip, held, taken) at h))
    ]
  ]

module _ (r : Redis) (job : Job) where
  open r use {Store, cell, put}

  -- The entry of the job's gateway, as it is read at a time.
  abbrev job_entry : ℕ → Store → Dict Scalar
  job_entry now s = gw_load (get r now s (gateway job.gw_id))

  -- What an accepted start leaves: the gateway is started, serves the room that was asked for, is
  -- shown in a call unless the room is the text "None", and no later start can take it.
  pub record Started (s : Store) : Type 0 where
    pub state : (now : ℕ) → field "gw_state" (job_entry now s) ≡ str "started"
    pub room : (now : ℕ) → field "room" (job_entry now s) ≡ job.room
    pub browsing : (now : ℕ) → field "browsing" (job_entry now s) ≡ job.browsing
    pub taken : (now : ℕ) → is_available (job_entry now s) ≡ false
    pub in_call :
        (now : ℕ) → truthy (clean_part job.room) ≡ true → derive_state (job_entry now s) ≡ call

  stored :
      (now later : ℕ) (code : ℕ) (info : Payload) (s : Store) (k : String)
      → field k (job_entry later (start_finish r job (answer code (str "success") info) now s).1)
        ≡ field k (started_entry job.ip job.room job.browsing (job_entry now s))
  unfolding start_finish
  stored now later code info s k =
      rw (get-put_self r (gateway job.gw_id) _ later s) (field-gw_load-gw_dump k _)

  -- A gateway that answers "success" is started for the job, whatever its entry was.
  pub start_finish-Started :
      (now code : ℕ) (info : Payload) (s : Store)
      → Started (start_finish r job (answer code (str "success") info) now s).1
  start_finish-Started now code info s = record {
    state = state_now;
    room = room_now;
    browsing = λ later.
        stored now later code info s "browsing" ∙ unfold started_entry in simp field-insert;
    taken = λ later. unfold is_available in rw (state_now later);
    in_call = λ later real. (derive_state-call _).1 (state_now later, rw (room_now later) real);
  }
    where
      state_now :
          (later : ℕ)
          → field "gw_state"
              (job_entry later (start_finish r job (answer code (str "success") info) now s).1)
            ≡ str "started"
      state_now later =
          stored now later code info s "gw_state" ∙ unfold started_entry in simp field-insert

      room_now :
          (later : ℕ)
          → field "room"
              (job_entry later (start_finish r job (answer code (str "success") info) now s).1)
            ≡ job.room
      room_now later =
          stored now later code info s "room" ∙ unfold started_entry in simp field-insert

  -- Any other answer, a timeout and a failure to connect leave the registry as it was, and the
  -- caller gets an error.
  pub start_finish_failed :
      (reply : Reply) (now : ℕ) (s : Store)
      → ((code : ℕ) (info : Payload) → reply ≢ answer code (str "success") info)
      → (start_finish r job reply now s).1 ≡ s
        × ((code : ℕ) → (start_finish r job reply now s).0 ≢ ok code)
  unfolding start_finish
  start_finish_failed timeout now s other = (refl, λ code e. cc)
  start_finish_failed broken now s other = (refl, λ code e. cc)
  start_finish_failed garbled now s other = (refl, λ code e. cc)
  start_finish_failed (answer code status info) now s other =
      elim (Bool-cases (is_text "success" status)) [
        | inl e ↦ absurd (other code info (rw (is_text→eq "success" status e)))
        | inr e ↦ rw e (refl, λ c h. cc)
      ]

allocated_inv :
    (room browsing : Scalar) (o : Option (String × Scalar)) (j : Job)
    → allocated room browsing o ≡ ok j
    → (g : String × Scalar) × (o ≡ some g) × (j.gw_id ≡ key_gw_id g.0) × (j.ip ≡ g.1)
allocated_inv room browsing none j h = cc
allocated_inv room browsing (some (id, ip)) j h =
    let e = ok-injective _ _ h in
    ((id, ip), refl, ap (λ (x : Job). x.gw_id) (sym e), ap (λ (x : Job). x.ip) (sym e))

-- A start that gets as far as its gateway has the gateway that the scan gives.
pub start_pick_inv :
    (r : Redis) (cfg : Config) (req : Request) (now : ℕ) (ids : List String) (s : r.Store) (j : Job)
    → start_pick r cfg req now ids s ≡ ok j
    → (g : String × Scalar) × (find_available r now ids s ≡ ok (some g))
      × (j.gw_id ≡ key_gw_id g.0)
      × (j.ip ≡ g.1)
unfolding start_pick
start_pick_inv r cfg req now ids s j h = elim (Bool-cases (authorize cfg req)) [
  | inr refused ↦ cc (rw refused at h)
  | inl opened ↦
      let h₀ = rw opened at h in
      let (body, _, h₁) = >>=-eq-ok (json req.body) _ h₀ in
      let (browsing, _, h₂) = >>=-eq-ok (need (field "browsing" body) _) _ h₁ in
      let (room, _, h₃) = >>=-eq-ok (need (field "room" body) _) _ h₂ in
      let (main_app, _, h₄) = >>=-eq-ok (need (field "main_app" body) _) _ h₃ in
      let (o, scan, h₅) = >>=-eq-ok (find_available r now ids s) _ h₄ in
      let (g, e, same_id, same_ip) = allocated_inv room browsing o j h₅ in
      (g, rw e at scan, same_id, same_ip)
]

-- The choice of a gateway reserves nothing: two starts that choose before either has its answer get
-- the same gateway at the same address, whatever they ask for.
pub start_pick_twice :
    (r : Redis) (cfg : Config) (req req' : Request) (now : ℕ) (ids : List String) (s : r.Store)
    (j j' : Job)
    → start_pick r cfg req now ids s ≡ ok j
    → start_pick r cfg req' now ids s ≡ ok j'
    → (j.gw_id ≡ j'.gw_id) × (j.ip ≡ j'.ip)
start_pick_twice r cfg req req' now ids s j j' h h' =
    let (g, e, id, ip) = start_pick_inv r cfg req now ids s j h in
    let (g', e', id', ip') = start_pick_inv r cfg req' now ids s j' h' in
    let same : g ≡ g' = some-injective _ _ (ok-injective _ _ (sym e ∙ e')) in
    (
      id ∙ ap (λ (x : String × Scalar). key_gw_id x.0) same ∙ sym id',
      ip ∙ ap (λ (x : String × Scalar). x.1) same ∙ sym ip',
    )
