-- ===== src/Manager/Units/Routes/Newest.antt =====
-- manager/api/org_units.py: the rule that createRule adds stands at the bottom of the list.
use sipmedia_gw.Prelude.{
  ℕ, ◌+◌, ◌≤◌, ◌≡◌, refl, sym, ◌∙◌, ap, subst, arith, String, Bool, true, false, ◌&&◌, Option, none,
  some, List, [], ◌∷◌, All, select,
}
use sipmedia_gw.Outcome.{ok, >>=-eq-ok}
use sipmedia_gw.Manager.Units.{
  Rule, Db, Probe, before_key, before, latest, is_active, applies, test_rules, shown_uri,
  or_nothing,
}
use sipmedia_gw.Manager.Units.Order.{latest-here, latest-Has}
use sipmedia_gw.Manager.Units.Routes.{
  RuleBody, apply-ok, check_rule, known_unit, duplicate, new_rule, create_rule, max_position,
  or_kept, rule_of,
}
use sipmedia_gw.Manager.Units.Routes.Deciding.{counts, test-latest}

-- A rule whose position is below a bound.
abbrev Below : ℕ → Rule → Type 0
Below n r = or_kept r.position 0 ≤ n

max_position-Below : (rules : List Rule) (n : ℕ) → max_position rules ≤ n → All (Below n) rules
unfolding max_position
max_position-Below [] n h = _
max_position-Below (r ∷ rules) n h =
    (omega (arith, h), max_position-Below rules n (omega (arith, h)))

not_before_key :
    (n i : ℕ) (q : Option ℕ) (j : ℕ) → or_kept q 0 ≤ n → before_key (some (n + 1)) i q j ≡ false
not_before_key n i none j h = refl
not_before_key n i (some q) j h = ground arith

made : (x r : Rule) → ok x ≡ ok r → x ≡ r
made x r e = cc

new_rule-position :
    (body : RuleBody) (db : Db) (r : Rule)
    → new_rule body db ≡ ok r
    → r.position ≡ some (max_position db.rules + 1)
unfolding new_rule rule_of
new_rule-position body db r e =
    let a = >>=-eq-ok (check_rule body) _ e in
    let b = >>=-eq-ok (known_unit body.to_unit db) _ a.2 in
    let c = >>=-eq-ok (duplicate body.on_field body.by_match a.0.0 none db.rules) _ b.2 in
    sym (ap (λ z. z.position) (made _ r c.2))

above_all : (x s : Rule) (n : ℕ) → x.position ≡ some (n + 1) → Below n s → before x s ≡ false
unfolding before
above_all x s n e h =
    ap (λ p. before_key p x.id s.position s.id) e ∙ not_before_key n x.id s.position s.id h

module _ (regex : String → String → Bool) (probe : Probe) where
  added-Decides :
      (db : Db) (x : Rule)
      → x.position ≡ some (max_position db.rules + 1)
      → counts regex probe db x ≡ true
      → latest (select (counts regex probe db) (x ∷ db.rules)) ≡ some x
  added-Decides db x e c = latest-here (counts regex probe db) x db.rules c (λ s f.
      above_all x s (max_position db.rules) e (
        latest-Has (counts regex probe db) (Below (max_position db.rules)) db.rules
          (max_position-Below db.rules (max_position db.rules) (omega arith)) s f))

  both_true : (a b : Bool) → a ≡ true → b ≡ true → (a && b) ≡ true
  both_true a b e f = ground arith

  -- The rule that is created for an active entity wins over every other rule, for each caller that
  -- it applies to.
  pub create_rule-Decides :
      (body : RuleBody) (user : String) (db after : Db) (r : Rule)
      → create_rule body user db ≡ (ok r, after)
      → is_active db.units r.unit ≡ true
      → applies regex (shown_uri probe) (or_nothing probe.alias) r ≡ true
      → (test_rules regex probe after).1 ≡ some r
  unfolding create_rule counts
  create_rule-Decides body user db after r e u a =
      let c = apply-ok (new_rule body db) _ db after r e in
      let x = c.0 in
      let same = made x r (ap (λ z. z.0) c.2) in
      let position = new_rule-position body db x c.1 in
      subst (λ z. (test_rules regex probe z).1 ≡ some r) (ap (λ z. z.1) c.2)
        (test-latest regex probe _
          ∙ added-Decides db x position (
              both_true _ _ (ap (λ z. is_active db.units z.unit) same ∙ u)
                (ap (λ z. applies regex (shown_uri probe) (or_nothing probe.alias) z) same ∙ a))
          ∙ ap some same)
