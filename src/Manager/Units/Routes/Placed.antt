-- ===== src/Manager/Units/Routes/Placed.antt =====
-- manager/api/org_units.py: the order that orderRules writes.
use sipmedia_gw.Prelude.{
  ℕ, suc, ◌≤◌, ◌≡◌, ◌≢◌, refl, sym, ◌∙◌, ap, subst, arith, String, Bool, true, false, ◌||◌, ◌&&◌,
  Option, none, some, List, [], ◌∷◌, All, map, any, eqb, eqb_refl, Bool-cases, inl, inr, if_true,
  if_false,
}
use sipmedia_gw.Outcome.{ok}
use sipmedia_gw.Manager.Units.{
  Rule, Db, Probe, before_key, before, insert_rule, in_order, test_rules,
}
use sipmedia_gw.Manager.Units.Order.{latest-Greatest, latest-Has, Greatest}
use sipmedia_gw.Manager.Units.Routes.{or_kept, check, apply-ok}
use sipmedia_gw.Manager.Units.Routes.Changes.{
  insert_id, sorted, same_ids, is_whole, checked_order, ordinal, at_place, placed, any_moved,
  is_moved, is_distinct, order_rules,
}
use sipmedia_gw.Manager.Units.Routes.Deciding.{counts, test-latest}

any-insert_id :
    (i j : ℕ) (ids : List ℕ) → any (eqb i) (insert_id j ids) ≡ (eqb i j || any (eqb i) ids)
unfolding any
any-insert_id i j [] = refl
any-insert_id i j (k ∷ ids) = ground (arith, any-insert_id i j ids)

any-sorted : (i : ℕ) (ids : List ℕ) → any (eqb i) (sorted ids) ≡ any (eqb i) ids
unfolding any sorted
any-sorted i [] = refl
any-sorted i (j ∷ ids) = any-insert_id i j (sorted ids) ∙ ap (λ b. eqb i j || b) (any-sorted i ids)

any-same_ids : (i : ℕ) (is js : List ℕ) → same_ids is js ≡ true → any (eqb i) is ≡ any (eqb i) js
unfolding any same_ids
any-same_ids i [] [] e = refl
any-same_ids i [] (j ∷ js) e = cc
any-same_ids i (k ∷ is) [] e = cc
any-same_ids i (k ∷ is) (j ∷ js) e = ground (arith, any-same_ids i is js)

or_swap : (a b c : Bool) → (b || (a || c)) ≡ (a || (b || c))
or_swap a b c = ground arith

any-insert_rule :
    (i : ℕ) (r : Rule) (rules : List Rule)
    → any (eqb i) (map (λ s. s.id) (insert_rule r rules))
      ≡ (eqb i r.id || any (eqb i) (map (λ s. s.id) rules))
unfolding any
any-insert_rule i r [] = refl
any-insert_rule i r (s ∷ rules) = elim (Bool-cases (before r s)) [
  | inl e ↦ ap (λ z. any (eqb i) (map (λ (t : Rule). t.id) z)) (if_true _ _ _ e)
  | inr e ↦
      ap (λ z. any (eqb i) (map (λ (t : Rule). t.id) z)) (if_false _ _ _ e)
      ∙ ap (λ b. eqb i s.id || b) (any-insert_rule i r rules)
      ∙ or_swap (eqb i r.id) (eqb i s.id) (any (eqb i) (map (λ (t : Rule). t.id) rules))
]

any-in_order :
    (i : ℕ) (rules : List Rule)
    → any (eqb i) (map (λ r. r.id) (in_order rules)) ≡ any (eqb i) (map (λ r. r.id) rules)
unfolding any in_order
any-in_order i [] = refl
any-in_order i (r ∷ rules) =
    any-insert_rule i r (in_order rules) ∙ ap (λ b. eqb i r.id || b) (any-in_order i rules)

-- An id that is held has a place.
ordinal-any : (n i : ℕ) (ids : List ℕ) → any (eqb i) ids ≡ true → ordinal n i ids ≢ none
unfolding any ordinal
ordinal-any n i [] e f = cc
ordinal-any n i (j ∷ ids) e f = ground (arith, ordinal-any (suc n) i ids)

key_place : (m i n j : ℕ) → before_key (some m) i (some n) j ≡ false → n ≤ m
key_place m i n j e = ground arith

-- The place of an id in a list, from 1.
unfoldable pub place : List ℕ → ℕ → ℕ
place ids i = or_kept (ordinal 1 i ids) 0

-- A rule stands at a place.
abbrev At : ℕ → Rule → Type 0
At n r = r.position ≡ some n

at_place-At : (r : Rule) (o : Option ℕ) → o ≢ none → At (or_kept o 0) (at_place r o)
at_place-At r none h = absurd (h refl)
at_place-At r (some n) h = refl

at_place-id : (r : Rule) (o : Option ℕ) → (at_place r o).id ≡ r.id
at_place-id r none = refl
at_place-id r (some n) = refl

placed-At :
    (ids : List ℕ) (r : Rule)
    → any (eqb r.id) ids ≡ true
    → At (place ids (placed ids r).id) (placed ids r)
unfolding place placed
placed-At ids r e =
    subst (λ i. At (or_kept (ordinal 1 i ids) 0) (at_place r (ordinal 1 r.id ids)))
      (sym (at_place-id r (ordinal 1 r.id ids)))
      (at_place-At r (ordinal 1 r.id ids) (ordinal-any 1 r.id ids e))

-- The rules of a table, each at the place of its id.
abbrev Placed : List ℕ → List Rule → Type 0
Placed ids rules = All (λ r. At (place ids r.id) r) rules

same_place : (o : Option ℕ) (n : ℕ) → is_distinct o (some n) ≡ false → some n ≡ o
same_place none n e = cc
same_place (some m) n e = ground arith

and_left : (a b : Bool) → (a && b) ≡ true → a ≡ true
and_left true b e = refl
and_left false b e = cc

or_here : (a b : Bool) → a ≡ true → (a || b) ≡ true
or_here a b e = ground arith

or_there : (a b : Bool) → b ≡ true → (a || b) ≡ true
or_there a b e = ground arith

neither : (a b : Bool) → (a || b) ≡ false → (a ≡ false) × (b ≡ false)
neither false b e = (refl, e)
neither true b e = cc

unmoved : (r : Rule) (o : Option ℕ) → is_moved r o ≡ false → at_place r o ≡ r
unmoved r none e = refl
unmoved r (some n) e = ap (λ p. record r { position = p }) (same_place r.position n e)

none-moved :
    (ids : List ℕ) (rules : List Rule)
    → any_moved ids rules ≡ false
    → map (placed ids) rules ≡ rules
unfolding any_moved placed any
none-moved ids [] e = refl
none-moved ids (r ∷ rules) e =
    let both = neither _ _ e in
    ap (λ z. z ∷ map (placed ids) rules) (unmoved r _ both.0)
    ∙ ap (λ z. r ∷ z) (none-moved ids rules both.1)

whole-any :
    (ids : List ℕ) (rules : List Rule) (i : ℕ)
    → is_whole ids (map (λ (r : Rule). r.id) (in_order rules)) ≡ true
    → any (eqb i) (map (λ (r : Rule). r.id) rules) ≡ true
    → any (eqb i) ids ≡ true
unfolding is_whole
whole-any ids rules i e h =
    sym (any-sorted i ids)
    ∙ any-same_ids i _ _ (and_left _ _ e)
    ∙ any-sorted i (map (λ (r : Rule). r.id) (in_order rules))
    ∙ any-in_order i rules
    ∙ h

whole-Placed :
    (ids : List ℕ) (rules part : List Rule)
    → is_whole ids (map (λ (r : Rule). r.id) (in_order rules)) ≡ true
    → ((i : ℕ)
        → any (eqb i) (map (λ (r : Rule). r.id) part) ≡ true
        → any (eqb i) (map (λ (r : Rule). r.id) rules) ≡ true)
    → Placed ids (map (placed ids) part)
unfolding any is_whole
whole-Placed ids rules [] e h = _
whole-Placed ids rules (r ∷ part) e h = (
  placed-At ids r (whole-any ids rules r.id e (h r.id (or_here _ _ (eqb_refl r.id)))),
  whole-Placed ids rules part e (λ i f. h i (or_there (eqb i r.id) _ f)),
)

check-ok : (b : Bool) (n : ℕ) (d : String) (x : Bool) → check b n d ≡ ok x → b ≡ true
check-ok false n d x e = cc
check-ok true n d x e = refl

order_rules-rules :
    (ids js : List ℕ) (user : String) (db after : Db)
    → order_rules ids user db ≡ (ok js, after)
    → (after.rules ≡ map (placed ids) db.rules)
      × (is_whole ids (map (λ (r : Rule). r.id) (in_order db.rules)) ≡ true)
unfolding order_rules checked_order
order_rules-rules ids js user db after e =
    let c = apply-ok (checked_order ids db) _ db after js e in
    (
      sym (ap (λ z. z.1.rules) c.2) ∙ elim (Bool-cases (any_moved ids db.rules)) [
        | inl f ↦ ap (λ (z : Db). z.rules) (if_true _ _ _ f)
        | inr f ↦ ap (λ (z : Db). z.rules) (if_false _ _ _ f) ∙ sym (none-moved ids db.rules f)
      ],
      check-ok _ _ _ c.0 c.1,
    )

earlier_place : (w r : Rule) (m n : ℕ) → At m w → At n r → before w r ≡ false → n ≤ m
unfolding before
earlier_place w r m n a b e = key_place m w.id n r.id (
    sym (ap (λ p. before_key p w.id (some n) r.id) a)
    ∙ sym (ap (λ p. before_key w.position w.id p r.id) b)
    ∙ e)

module _ (regex : String → String → Bool) (probe : Probe) where
  -- The rule that decides stands at the greatest place of the rules that count; with none, no rule
  -- counts.
  abbrev pub Decides : List ℕ → Db → Option Rule → Type 0
  Decides ids db none = All (λ r. counts regex probe db r ≡ false) db.rules
  Decides ids db (some w) =
      (counts regex probe db w ≡ true)
      × All (λ r. counts regex probe db r ≡ true → place ids r.id ≤ place ids w.id) db.rules

  places :
      (ids : List ℕ) (db : Db) (w : Rule) (rules : List Rule)
      → At (place ids w.id) w
      → Placed ids rules
      → All (λ r. counts regex probe db r ≡ true → before w r ≡ false) rules
      → All (λ r. counts regex probe db r ≡ true → place ids r.id ≤ place ids w.id) rules
  places ids db w [] a h k = _
  places ids db w (r ∷ rules) a h k =
      ((λ c. earlier_place w r _ _ a h.0 (k.0 c)), places ids db w rules a h.1 k.1)

  Greatest-Decides :
      (ids : List ℕ) (db : Db) (o : Option Rule)
      → Placed ids db.rules
      → Greatest (counts regex probe db) db.rules o
      → ((w : Rule) → o ≡ some w → At (place ids w.id) w)
      → Decides ids db o
  Greatest-Decides ids db none h g k = g
  Greatest-Decides ids db (some w) h g k = (g.0, places ids db w db.rules (k w refl) h g.1)

  greatest-Decides :
      (ids : List ℕ) (db : Db) → Placed ids db.rules → Decides ids db (test_rules regex probe db).1
  greatest-Decides ids db h = subst (Decides ids db) (sym (test-latest regex probe db)) (
      Greatest-Decides ids db _ h (latest-Greatest (counts regex probe db) db.rules)
        (latest-Has (counts regex probe db) (λ r. At (place ids r.id) r) db.rules h))

  -- Once an administrator has sent an order that is accepted, the rule that decides for a caller is
  -- one that counts, and no rule that counts has a later place in that order; where none decides,
  -- none counts. A rule counts if it is enabled, matches, and its entity is active.
  pub order_rules-Decides :
      (ids js : List ℕ) (user : String) (db after : Db)
      → order_rules ids user db ≡ (ok js, after)
      → Decides ids after (test_rules regex probe after).1
  order_rules-Decides ids js user db after e =
      let f = order_rules-rules ids js user db after e in
      let whole = whole-Placed ids db.rules db.rules f.1 (λ i g. g) in
      greatest-Decides ids after (subst (Placed ids) (sym f.0) whole)
