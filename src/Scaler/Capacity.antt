-- ===== src/Scaler/Capacity.antt =====
-- deploy/scaler/src/Scaler.py: the bounds of scaling.
use sipmedia_gw.Prelude.{
  ℕ, zero, suc, ◌+◌, ◌-◌, ◌*◌, ◌/◌, ◌%◌, ◌≤◌, ◌<◌, min, ◌≡◌, ◌⊎◌, refl, ap, ◌∙◌, sym, subst, arith,
  String, Option, none, some, List, [], ◌∷◌, ◌++◌, Bool-cases, Option-cases, inl, inr, if_true,
  if_false, ltb,
}
use native.Mathlib.Nat.{mod-lt, div-add-mod', suc-mul}
use sipmedia_gw.Scaler.{
  repeat, cpu_count, fill, last_kind, completed, sort_desc, up_scale, Slot, Move, up, down, stay,
  calls_of, target_capacity, scale, more, positive,
}

abbrev size : Option ℕ → ℕ
size none = 0
size (some k) = k

-- The CPUs of the machines.
unfoldable pub cpus : List String → ℕ
unfolding cpu_count
cpus [] = 0
cpus (c ∷ cs) = size (cpu_count c) + cpus cs

cpus-append : (xs ys : List String) → cpus (xs ++ ys) ≡ cpus xs + cpus ys
unfolding cpus
cpus-append [] ys = omega arith
cpus-append (x ∷ xs) ys = omega (arith, cpus-append xs ys)

cpus-repeat : (n : ℕ) (c : String) → cpus (repeat n c) ≡ n * size (cpu_count c)
unfolding cpus repeat
cpus-repeat zero c = omega arith
cpus-repeat (suc n) c =
    ap (λ m. size (cpu_count c) + m) (cpus-repeat n c)
    ∙ omega (arith, suc-mul n (size (cpu_count c)))

-- What the run over the kinds of machine has created and still misses.
abbrev Filled : List String → ℕ → List String × ℕ → Type 0
Filled kinds n (made, left) =
    (cpus made + left ≡ n) × ((c : String) → last_kind kinds ≡ some c → left < size (cpu_count c))

positive-pos : (o : Option ℕ) (k : ℕ) → positive o ≡ some k → 0 < k
positive-pos none k h = cc h
positive-pos (some zero) k h = cc h
positive-pos (some (suc m)) k h = ground (arith, h)

cpu_count-pos : (c : String) (k : ℕ) → cpu_count c ≡ some k → 0 < k
unfolding cpu_count
cpu_count-pos c k h = positive-pos _ k h

last_of :
    (kinds : List String) (c d : String) (k left : ℕ)
    → cpu_count c ≡ some k
    → left < k
    → ((e : String) → last_kind kinds ≡ some e → left < size (cpu_count e))
    → last_kind (c ∷ kinds) ≡ some d
    → left < size (cpu_count d)
last_of [] c d k left count l all h =
    let same : c ≡ d = cc h in
    subst (λ e. left < size (cpu_count e)) same (subst (λ o. left < size o) (sym count) l)
last_of (x ∷ kinds) c d k left count l all h = all d h

left_le : (kinds : List String) (n : ℕ) (r : List String × ℕ) → Filled kinds n r → r.1 ≤ n
left_le kinds n r h = omega (arith, h.0)

fill_step :
    (c : String) (kinds : List String) (n k : ℕ) (o : Option (List String × ℕ))
    (r : List String × ℕ)
    → cpu_count c ≡ some k
    → ((q : List String × ℕ) → o ≡ some q → Filled kinds (n % k) q)
    → more (repeat (n / k) c) o ≡ some r
    → Filled (c ∷ kinds) n r
fill_step c kinds n k none r count rec h = cc h
fill_step c kinds n k (some (made, left)) r count rec h =
    let (total, short) = rec (made, left) refl in
    let each : cpus (repeat (n / k) c) ≡ n / k * k =
      cpus-repeat (n / k) c ∙ ap (λ o. n / k * size o) count in
    let within : left < k = omega (arith, total, mod-lt n (cpu_count-pos c k count)) in
    let same : (repeat (n / k) c ++ made, left) ≡ r = cc h in
    subst (Filled (c ∷ kinds) n) same (
      omega (arith, total, each, cpus-append (repeat (n / k) c) made, div-add-mod' n k),
      λ d. last_of kinds c d k left count within short,
    )

fill-Filled :
    (kinds : List String) (n : ℕ) (r : List String × ℕ) → fill kinds n ≡ some r → Filled kinds n r
unfolding fill cpus
fill-Filled [] n r h =
    let same : ([], n) ≡ r = cc h in subst (Filled [] n) same (omega arith, λ c e. cc e)
fill-Filled (c ∷ kinds) n r h = elim (Option-cases (cpu_count c)) [
  | inl e ↦ cc (rw (fill, e) at h)
  | inr (k, e) ↦
      fill_step c kinds n k (fill kinds (n % k)) r e (fill-Filled kinds (n % k)) (rw (fill, e) at h)
]

-- The machines have the CPUs that were asked for and fewer than one machine of the last kind more.
abbrev pub Enough : List String → ℕ → List String → Type 0
Enough kinds n made =
    (n ≤ cpus made)
    × ((cpus made ≡ n)
        ⊎ ((c : String) × (last_kind kinds ≡ some c) × (cpus made < n + size (cpu_count c))))

one_machine : (c : String) → cpus (c ∷ []) ≡ size (cpu_count c)
unfolding cpus
one_machine c = omega arith

completed-Enough :
    (kinds : List String) (n : ℕ) (o : Option (List String × ℕ)) (made : List String)
    → ((r : List String × ℕ) → o ≡ some r → Filled kinds n r)
    → completed kinds o ≡ some made
    → Enough kinds n made
completed-Enough kinds n none made f h = cc h
completed-Enough kinds n (some (m, zero)) made f h =
    let (total, short) = f (m, zero) refl in
    let same : m ≡ made = cc h in
    subst (Enough kinds n) same (omega (arith, total), inl (omega (arith, total)))
completed-Enough kinds n (some (m, suc left)) made f h = elim (Option-cases (last_kind kinds)) [
  | inl e ↦ cc (rw (completed, e) at h)
  | inr (c, e) ↦
      let (total, short) = f (m, suc left) refl in
      let same : m ++ (c ∷ []) ≡ made = cc (rw (completed, e) at h) in
      let sum = cpus-append m (c ∷ []) in
      subst (Enough kinds n) same (
        omega (arith, total, sum, one_machine c, short c e),
        inr (c, e, omega (arith, total, sum, one_machine c, short c e)),
      )
]

-- Where upScale ends without an exception, the machines that it creates have the CPUs asked for, and
-- either just as many or fewer than one machine of the kind that sorts last more.
pub up_scale-Enough :
    (kinds : List String) (n : ℕ) (made : List String)
    → up_scale kinds n ≡ some made
    → Enough (sort_desc kinds) n made
unfolding up_scale
up_scale-Enough kinds n made h =
    completed-Enough (sort_desc kinds) n (fill (sort_desc kinds) n) made
      (fill-Filled (sort_desc kinds) n) h

-- The gateways that a slot wants for so many calls: no more than its most, as many as its floor, as
-- the calls with its buffer, and as its load ask for, as far as the most allows, and no more than one
-- of these asks for.
abbrev pub Wanted : Slot → ℕ → ℕ → Type 0
Wanted slot in_call n =
    (n ≤ slot.max_gw)
    × (min slot.max_gw slot.min_gw ≤ n)
    × (min slot.max_gw (slot.unlocked_min + in_call) ≤ n)
    × (min slot.max_gw (slot.load_needs in_call) ≤ n)
    × ((n ≤ slot.min_gw) ⊎ ((n ≤ slot.unlocked_min + in_call) ⊎ (n ≤ slot.load_needs in_call)))

-- What a decision of scale leads to.
abbrev pub Bounded : Slot → ℕ → ℕ → Move → Type 0
Bounded slot current in_call (up k) = Wanted slot in_call (current + k)
Bounded slot current in_call (down k) = (k ≤ current) × Wanted slot in_call (current - k)
Bounded slot current in_call stay = Wanted slot in_call current

target-Wanted : (slot : Slot) (in_call : ℕ) → Wanted slot in_call (target_capacity slot in_call)
unfolding target_capacity
target-Wanted slot in_call = (omega arith, omega arith, omega arith, omega arith, omega arith)

reached : (slot : Slot) (in_call n : ℕ) → target_capacity slot in_call ≡ n → Wanted slot in_call n
reached slot in_call n e = subst (Wanted slot in_call) e (target-Wanted slot in_call)

moved-Bounded :
    (slot : Slot) (incalls_num : Option ℕ) (current ready : ℕ)
    → Bounded slot current
        (calls_of incalls_num current ready)
        (scale slot incalls_num current ready)
unfolding scale
moved-Bounded slot incalls_num current ready =
    let in_call = calls_of incalls_num current ready in
    let target = target_capacity slot in_call in
    elim (Bool-cases (ltb current target)) [
      | inl e ↦
          subst (Bounded slot current in_call) (sym (if_true (ltb current target) _ _ e))
            (reached slot in_call _ (ground arith))
      | inr e ↦ elim (Bool-cases (ltb target current)) [
        | inl f ↦
            subst (Bounded slot current in_call)
              (sym (if_false (ltb current target) _ _ e ∙ if_true (ltb target current) _ _ f))
              (ground arith, reached slot in_call _ (ground arith))
        | inr f ↦
            subst (Bounded slot current in_call)
              (sym (if_false (ltb current target) _ _ e ∙ if_false (ltb target current) _ _ f))
              (reached slot in_call _ (ground arith))
      ]
    ]

-- What scale decides leads to the number of gateways that the slot wants for the calls: at most its
-- most, its floor, the calls with its buffer and the load as far as the most allows, and no more than
-- one of these asks for. The calls are the number given, or where there is none or 0 the gateways
-- that are not ready.
pub scale-Bounded :
    (slot : Slot) (n current ready : ℕ)
    → Bounded slot current (suc n) (scale slot (some (suc n)) current ready)
      × Bounded slot current (current - ready) (scale slot (some 0) current ready)
      × Bounded slot current (current - ready) (scale slot none current ready)
unfolding calls_of
scale-Bounded slot n current ready = (
  moved-Bounded slot (some (suc n)) current ready,
  moved-Bounded slot (some 0) current ready,
  moved-Bounded slot none current ready,
)
