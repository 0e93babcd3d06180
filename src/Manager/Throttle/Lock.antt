-- ===== src/Manager/Throttle/Lock.antt =====
-- manager/auth.py: the throttle over a run of failures.
use sipmedia_gw.Prelude.{
  ℕ, ◌+◌, ◌<◌, ◌≡◌, ap, ◌∙◌, String, false, ◌&&◌, none, some, List, [], ◌∷◌, lookup, insert, ltb,
  leb, length, All, arith, lookup-insert, eq_refl, ◌==◌, lt→leb, Bool-cases, inl, inr,
}
use sipmedia_gw.Manager.Throttle.{
  Failures, purge, count_of, record_login_failure, login_throttled, lock_seconds, max_failures,
}

-- Failures of one address at the given times.
abbrev pub fail_all : String → List ℕ → Failures → Failures
fail_all ip [] d = d
fail_all ip (t ∷ ts) d = fail_all ip ts (record_login_failure ip t d)

-- Each time comes before the count of the one before it expires.
abbrev pub Follow : ℕ → List ℕ → Type 0
Follow t [] = Unit
Follow t (u ∷ us) = (u < t + lock_seconds) × Follow u us

abbrev pub last_of : ℕ → List ℕ → ℕ
last_of t [] = t
last_of t (u ∷ us) = last_of u us

lookup-purge :
    (now n u : ℕ) (ip : String) (d : Failures)
    → lookup ip d ≡ some (n, u)
    → now < u
    → lookup ip (purge now d) ≡ some (n, u)
unfolding purge lookup
lookup-purge now n u ip [] h l = cc h
lookup-purge now n u ip ((i, (m, v)) ∷ d) h l = elim (Bool-cases (i == ip)) [
  | inl e ↦
      let same : (m, v) ≡ (n, u) = cc (rw e at h) in
      let later : v ≡ u = ap (λ p. p.1) same in
      let on : leb v now ≡ false = lt→leb now v (omega (l, later, arith)) in
      rw (on, e) (ap some same)
  | inr e ↦ elim (Bool-cases (leb v now)) [
    | inl f ↦ rw f (lookup-purge now n u ip d (rw e at h) l)
    | inr f ↦ rw (f, e) (lookup-purge now n u ip d (rw e at h) l)
  ]
]

record_found :
    (ip : String) (now n u : ℕ) (d : Failures)
    → lookup ip d ≡ some (n, u)
    → now < u
    → lookup ip (record_login_failure ip now d) ≡ some (n + 1, now + lock_seconds)
unfolding record_login_failure
record_found ip now n u d h l =
    lookup-insert ip ip _ (purge now d)
    ∙ rw (eq_refl ip)
        (ap (λ o. some (count_of o + 1, now + lock_seconds)) (lookup-purge now n u ip d h l))

fail_all_run :
    (ip : String) (t n : ℕ) (ts : List ℕ) (d : Failures)
    → Follow t ts
    → lookup ip d ≡ some (n, t + lock_seconds)
    → lookup ip (fail_all ip ts d) ≡ some (n + length ts, last_of t ts + lock_seconds)
fail_all_run ip t n [] d f h = h ∙ ap (λ m. some (m, t + lock_seconds)) (omega arith)
fail_all_run ip t n (u ∷ us) d f h =
    fail_all_run ip u (n + 1) us (record_login_failure ip u d) f.1
      (record_found ip u n (t + lock_seconds) d h f.0)
    ∙ ap (λ m. some (m, last_of u us + lock_seconds)) (omega arith)

throttled_found :
    (ip : String) (now n u : ℕ) (d : Failures)
    → lookup ip d ≡ some (n, u)
    → (login_throttled ip now d).0 ≡ (leb max_failures n && ltb now u)
unfolding login_throttled
throttled_found ip now n u d h = rw h (ground arith)

record_first :
    (ip : String) (t : ℕ) (d : Failures)
    → lookup ip (purge t d) ≡ none
    → lookup ip (record_login_failure ip t d) ≡ some (1, t + lock_seconds)
unfolding record_login_failure
record_first ip t d h =
    lookup-insert ip ip _ (purge t d)
    ∙ rw (eq_refl ip) (ap (λ o. some (count_of o + 1, t + lock_seconds)) h)

-- With no count of the address running at `t`, failures at `t` and at times `ts`, each less than a
-- minute after the one before, lock the address exactly when they are five or more, until a minute
-- after the last.
pub throttle_lock :
    (ip : String) (t : ℕ) (ts : List ℕ) (now : ℕ) (d : Failures)
    → lookup ip (purge t d) ≡ none
    → Follow t ts
    → (login_throttled ip now (fail_all ip (t ∷ ts) d)).0
      ≡ (leb max_failures (1 + length ts) && ltb now (last_of t ts + lock_seconds))
throttle_lock ip t ts now d none_runs f =
    throttled_found ip now (1 + length ts) _ _
      (fail_all_run ip t 1 ts (record_login_failure ip t d) f (record_first ip t d none_runs))

abbrev pub Runs : ℕ → String × (ℕ × ℕ) → Type 0
Runs now (ip, (n, u)) = now < u

purge-Runs : (now : ℕ) (d : Failures) → All (Runs now) (purge now d)
unfolding purge
purge-Runs now [] = _
purge-Runs now ((ip, (n, u)) ∷ d) = elim (Bool-cases (leb u now)) [
  | inl e ↦ rw e (purge-Runs now d)
  | inr e ↦ rw e (ground arith, purge-Runs now d)
]

insert-Runs :
    (now n u : ℕ) (ip : String) (d : Failures)
    → now < u
    → All (Runs now) d
    → All (Runs now) (insert ip (n, u) d)
unfolding insert
insert-Runs now n u ip [] l h = (l, _)
insert-Runs now n u ip ((i, (m, v)) ∷ d) l h = elim (Bool-cases (i == ip)) [
  | inl e ↦ rw e (l, h.1)
  | inr e ↦ rw e (h.0, insert-Runs now n u ip d l h.1)
]

-- After a failure no expired count is left, whoever's it was.
pub record_login_failure-Runs :
    (ip : String) (now : ℕ) (d : Failures) → All (Runs now) (record_login_failure ip now d)
unfolding record_login_failure
record_login_failure-Runs ip now d =
    insert-Runs now _ _ ip (purge now d) (omega arith) (purge-Runs now d)
