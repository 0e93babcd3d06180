-- ===== src/Manager/Units/Routes/Deciding.antt =====
-- manager/api/org_units.py: which rule decides, for the ingestion of a call and for the console.
use sipmedia_gw.Prelude.{
  ◌≡◌, refl, sym, ◌∙◌, ap, arith, String, Bool, true, false, ◌&&◌, List, [], ◌∷◌, select, any,
  if◌then◌else◌, if_true, if_false,
}
use sipmedia_gw.Manager.Units.{
  OrgUnit, Rule, Db, Probe, in_order, latest, last_rule, unit_of, is_active, is_known, applies,
  resolve_org_unit, matching, test_rules, shown_uri, or_nothing,
}
use sipmedia_gw.Manager.Units.Order.{last-in_order}

choose_both :
    (r : Rule → Bool) (a b c : Bool) (x : Rule)
    → r x ≡ b
    → (b && a) ≡ c
    → (xs ys : List Rule) → select r xs ≡ ys
    → select r (if a then x ∷ xs else xs) ≡ (if c then x ∷ ys else ys)
unfolding select
choose_both r true true c x e h xs ys k =
    if_true (r x) _ _ e ∙ ap (λ z. x ∷ z) k ∙ sym (if_true c _ _ (sym h))
choose_both r true false c x e h xs ys k = if_false (r x) _ _ e ∙ k ∙ sym (if_false c _ _ (sym h))
choose_both r false true c x e h xs ys k = k ∙ sym (if_false c _ _ (sym h))
choose_both r false false c x e h xs ys k = k ∙ sym (if_false c _ _ (sym h))

select_both :
    (p q r : Rule → Bool) (rules : List Rule)
    → ((x : Rule) → (r x && p x) ≡ q x)
    → select r (select p rules) ≡ select q rules
unfolding select
select_both p q r [] h = refl
select_both p q r (x ∷ rules) h =
    choose_both r (p x) (r x) (q x) x refl (h x) (select p rules) (select q rules)
      (select_both p q r rules h)

active-known :
    (units : List OrgUnit) (code : String)
    → is_active units code ≡ true
    → is_known units code ≡ true
unfolding is_active is_known any
active-known [] code e = cc
active-known (u ∷ units) code e = ground (arith, active-known units code)

narrow : (a k m : Bool) → (a ≡ true → k ≡ true) → (a && (k && m)) ≡ (a && m)
narrow false k m h = refl
narrow true k m h = ap (λ z. z && m) (h refl)

-- A rule that decides for a caller.
unfoldable pub counts : (String → String → Bool) → Probe → Db → Rule → Bool
unfolding is_active applies shown_uri
counts regex body db r =
    is_active db.units r.unit && applies regex (shown_uri body) (or_nothing body.alias) r

module _ (regex : String → String → Bool) (body : Probe) (db : Db) where
  counts-known :
      (r : Rule)
      → (is_active db.units r.unit
          && (is_known db.units r.unit && applies regex (shown_uri body) (or_nothing body.alias) r))
        ≡ counts regex body db r
  unfolding counts
  counts-known r = narrow _ _ _ (active-known db.units r.unit)

  pub test-latest : (test_rules regex body db).1 ≡ latest (select (counts regex body db) db.rules)
  unfolding test_rules matching
  test-latest =
      ap last_rule (select_both _ _ _ (in_order db.rules) counts-known)
      ∙ last-in_order (counts regex body db) db.rules

  -- The entity of the rule that the console shows as the one that decides for a caller is the entity
  -- that a call of that caller is attached to; where none decides, it is attached to none.
  pub test_rules-resolve :
      unit_of (test_rules regex body db).1
      ≡ resolve_org_unit regex (shown_uri body) (or_nothing body.alias) db
  unfolding resolve_org_unit counts
  test_rules-resolve = ap unit_of test-latest
