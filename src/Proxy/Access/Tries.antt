-- ===== src/Proxy/Access/Tries.antt =====
-- deploy/proxyAPI/proxy.py: tooManyCodeTries and noteFailedCodeTry over a run of failures.
use sipmedia_gw.Prelude.{
  ℕ, ◌+◌, ◌≤◌, ◌<◌, ◌≡◌, String, Bool, true, false, Option, none, some, List, [], ◌∷◌, arith, leb,
  eqb, lt→leb, le→leb, ltb, ltb→lt, ap, ◌∙◌, length, All, if◌then◌else◌, Bool-cases, Option-cases,
  inl, inr, eq_refl,
}
use sipmedia_gw.Proxy.Entry.{count}
use sipmedia_gw.Proxy.Redis.{
  Redis, Key, codetries, key_eq, Cell, live, value_of, deadline_of, counter,
}
use sipmedia_gw.Proxy.Access.{
  Config, Request, ok, caller_address, get, too_many_code_tries, note_failed_code_try, is_one,
}

-- A counter that runs until `d`.
abbrev tries : ℕ → ℕ → Cell
tries n d = record { value = count n; gone_at = some d }

key_eq_refl : (a : String) → key_eq (codetries a) (codetries a) ≡ true
key_eq_refl a = eq_refl a

zero_tries : (n : ℕ) → eqb n 0 ≡ false → leb n 0 ≡ false
zero_tries n h = ground arith

not_lt : (a b : ℕ) → ltb a b ≡ false → b ≤ a
not_lt a b h = ground arith

more_than_one : (n : ℕ) → 0 < n → eqb (n + 1) 1 ≡ false
more_than_one n h = ground arith

module _ (r : Redis) (cfg : Config) (req : Request) where
  open r use {Store, cell, incr, expire, cell-incr, cell-expire}

  abbrev pub key : Key
  key = codetries (caller_address cfg req)

  live-tries :
      (now n d : ℕ) (s : Store)
      → now < d
      → cell s key ≡ some (tries n d)
      → live now (cell s key) ≡ some (tries n d)
  live-tries now n d s h e = rw e (rw (lt→leb now d h))

  counted :
      (now n : ℕ) (d : Option ℕ) (s : Store)
      → counter (value_of (live now (cell s key))) ≡ some n
      → deadline_of (live now (cell s key)) ≡ d
      → cell (incr now key s) key ≡ some (record { value = count (n + 1); gone_at = d })
  counted now n d s e f =
      cell-incr now n key key s e
      ∙ rw (key_eq_refl (caller_address cfg req))
          (ap (λ t. some (record { value = count (n + 1); gone_at = t })) f)

  -- Another failure while the counter runs.
  note_next :
      (now n d : ℕ) (s : Store)
      → eqb cfg.code_try_limit 0 ≡ false
      → 0 < n
      → now < d
      → cell s key ≡ some (tries n d)
      → cell (note_failed_code_try r cfg req now s) key ≡ some (tries (n + 1) d)
  unfolding note_failed_code_try
  note_next now n d s on pos h e =
      let held = live-tries now n d s h e in
      let then_held = counted now n (some d) s (rw held) (rw held) in
      let many : is_one (counter (get r now (incr now key s) key)) ≡ false =
        rw (get, then_held) (rw (lt→leb now d h) (more_than_one n pos)) in
      rw (on, many) then_held

  -- The first failure starts the window.
  note_first :
      (now : ℕ) (s : Store)
      → eqb cfg.code_try_limit 0 ≡ false
      → live now (cell s key) ≡ none
      → cell (note_failed_code_try r cfg req now s) key ≡ some (tries 1 (now + cfg.code_try_window))
  unfolding note_failed_code_try
  note_first now s on e =
      let then_held = counted now 0 none s (rw e) (rw e) in
      let first : is_one (counter (get r now (incr now key s) key)) ≡ true = rw (get, then_held) in
      rw (on, first)
        (cell-expire now cfg.code_try_window key key (incr now key s)
          ∙ rw (key_eq_refl (caller_address cfg req), then_held))

  -- Failures at the given times.
  abbrev pub note_all : List ℕ → Store → Store
  note_all [] s = s
  note_all (t ∷ ts) s = note_all ts (note_failed_code_try r cfg req t s)

  note_all_run :
      (ts : List ℕ) (n d : ℕ) (s : Store)
      → eqb cfg.code_try_limit 0 ≡ false
      → 0 < n
      → All (λ t. t < d) ts
      → cell s key ≡ some (tries n d)
      → cell (note_all ts s) key ≡ some (tries (n + length ts) d)
  note_all_run [] n d s on pos within e = e ∙ ap (λ m. some (tries m d)) (omega arith)
  note_all_run (t ∷ ts) n d s on pos within e =
      note_all_run ts (n + 1) d (note_failed_code_try r cfg req t s) on (omega arith) within.1
        (note_next t n d s on pos within.0 e)
      ∙ ap (λ m. some (tries m d)) (omega arith)

  too_many_tries :
      (now n d : ℕ) (s : Store)
      → eqb cfg.code_try_limit 0 ≡ false
      → now < d
      → cell s key ≡ some (tries n d)
      → too_many_code_tries r cfg req now s ≡ ok (leb cfg.code_try_limit n)
  unfolding too_many_code_tries
  too_many_tries now n d s on h e = rw (on, live-tries now n d s h e)

  no_tries :
      (now n d : ℕ) (s : Store)
      → eqb cfg.code_try_limit 0 ≡ false
      → d ≤ now
      → cell s key ≡ some (tries n d)
      → too_many_code_tries r cfg req now s ≡ ok false
  unfolding too_many_code_tries
  no_tries now n d s on h e =
      rw (on, e) (rw (le→leb d now h) (ap ok (zero_tries cfg.code_try_limit on)))

  -- With a limit set and no counter running at `t`, failures at `t` and at times `ts` before the
  -- window ends lock the caller until `t + window` exactly when there are as many as the limit; from
  -- then on the caller is free again.
  pub code_tries_lock :
      (t : ℕ) (ts : List ℕ) (now : ℕ) (s : Store)
      → eqb cfg.code_try_limit 0 ≡ false
      → live t (cell s key) ≡ none
      → All (λ u. u < t + cfg.code_try_window) ts
      → too_many_code_tries r cfg req now (note_all (t ∷ ts) s)
        ≡ ok (
            if ltb now (t + cfg.code_try_window)
            then leb cfg.code_try_limit (1 + length ts)
            else false)
  code_tries_lock t ts now s on e within = elim (Bool-cases (ltb now (t + cfg.code_try_window))) [
    | inl early ↦ rw early (too_many_tries now (1 + length ts) _ _ on (ltb→lt _ _ early) run)
    | inr late ↦ rw late (no_tries now (1 + length ts) _ _ on (not_lt _ _ late) run)
  ]
    where
      run : cell (note_all (t ∷ ts) s) key ≡ some (tries (1 + length ts) (t + cfg.code_try_window))
      run = note_all_run ts 1 _ _ on (omega arith) within (note_first t s on e)

  -- A failure leaves every other key as it was.
  note_failed_code_try_keeps :
      (now n : ℕ) (s : Store) (j : Key)
      → counter (get r now s key) ≡ some n
      → key_eq key j ≡ false
      → cell (note_failed_code_try r cfg req now s) j ≡ cell s j
  unfolding note_failed_code_try
  note_failed_code_try_keeps now n s j e apart = elim (Bool-cases (eqb cfg.code_try_limit 0)) [
    | inl off ↦ rw off
    | inr on ↦ rw on (elim (Bool-cases (is_one (counter (get r now (incr now key s) key)))) [
      | inl one ↦
          rw one (cell-expire now cfg.code_try_window key j (incr now key s) ∙ rw apart incr_keeps)
      | inr more ↦ rw more incr_keeps
    ])
  ]
    where
      incr_keeps : cell (incr now key s) j ≡ cell s j
      incr_keeps = cell-incr now n key j s e ∙ rw apart

  -- The throttle lets a caller through only if its counter can be read.
  too_many-counter :
      (now : ℕ) (s : Store) (b : Bool)
      → eqb cfg.code_try_limit 0 ≡ false
      → too_many_code_tries r cfg req now s ≡ ok b
      → (n : ℕ) × (counter (get r now s key) ≡ some n)
  unfolding too_many_code_tries
  too_many-counter now s b on h = elim (Option-cases (counter (get r now s key))) [
    | inl lacks ↦ cc (rw (on, lacks) at h)
    | inr held ↦ held
  ]

  note_off :
      (now : ℕ) (s : Store)
      → eqb cfg.code_try_limit 0 ≡ true
      → note_failed_code_try r cfg req now s ≡ s
  unfolding note_failed_code_try
  note_off now s off = rw off

  -- After a throttle that answered, a failure changes no other key.
  pub cell-note :
      (now : ℕ) (s : Store) (b : Bool) (j : Key)
      → too_many_code_tries r cfg req now s ≡ ok b
      → key_eq key j ≡ false
      → cell (note_failed_code_try r cfg req now s) j ≡ cell s j
  cell-note now s b j answered apart = elim (Bool-cases (eqb cfg.code_try_limit 0)) [
    | inl off ↦ rw (note_off now s off)
    | inr on ↦
        let (n, e) = too_many-counter now s b on answered in
        note_failed_code_try_keeps now n s j e apart
  ]
