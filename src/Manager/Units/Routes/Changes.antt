-- ===== src/Manager/Units/Routes/Changes.antt =====
-- manager/api/org_units.py: updateRule, deleteRule, orderRules and recompute.
use sipmedia_gw.Prelude.{
  ℕ, suc, String, ◌==◌, Bool, true, false, not, ◌&&◌, Option, none, some, List, [], ◌∷◌, map,
  select, any, length, leb, eqb, if◌then◌else◌,
}
use sipmedia_gw.Text.{append, show}
use sipmedia_gw.Outcome.{Outcome, ok, refuse, ◌>>=◌}
use sipmedia_gw.Manager.Units.{
  Rule, Call, rule_change, order_change, recomputed, Db, in_order, calls_set_org_unit,
}
use sipmedia_gw.Manager.Units.Routes.{
  RuleBody, check, check_rule, known_unit, duplicate, rule_of, rule_name, apply, line_of,
}

unfoldable pub find_rule : ℕ → List Rule → Outcome Rule
find_rule i [] = refuse 404 "no such rule"
find_rule i (r ∷ rules) = if eqb r.id i then ok r else find_rule i rules

-- The rule as it was and as it becomes; it keeps its place.
unfoldable pub changed_rule : ℕ → RuleBody → Db → Outcome (Rule × Rule)
unfolding check_rule known_unit duplicate rule_of find_rule
changed_rule i body db = do
  checked ← check_rule body
  known ← known_unit body.to_unit db
  free ← duplicate body.on_field body.by_match checked.0 (some i) db.rules
  r ← find_rule i db.rules
  ok (r, rule_of i r.position body checked)

unfoldable pub put_rule : Rule → Rule → Rule
put_rule r s = if eqb s.id r.id then r else s

-- PUT /org-unit-rules/{ruleId}
unfoldable pub update_rule : ℕ → RuleBody → String → Db → Outcome Rule × Db
unfolding changed_rule append show
update_rule i body user db =
    apply (changed_rule i body db)
      (λ c. (
        ok c.1,
        record db {
          rules = map (put_rule c.1) db.rules;
          audit =
              line_of user "rule_update" (rule_name i) (rule_change (some c.0) (some c.1))
              ∷ db.audit;
        },
      ))
      db

-- DELETE /org-unit-rules/{ruleId}
unfoldable pub delete_rule : ℕ → String → Db → Outcome ℕ × Db
unfolding find_rule append show
delete_rule i user db =
    apply (find_rule i db.rules)
      (λ r. (
        ok i,
        record db {
          rules = select (λ s. not (eqb s.id i)) db.rules;
          audit = line_of user "rule_delete" (rule_name i) (rule_change (some r) none) ∷ db.audit;
        },
      ))
      db

abbrev pub insert_id : ℕ → List ℕ → List ℕ
insert_id i [] = i ∷ []
insert_id i (j ∷ ids) = let rest = insert_id i ids in if leb i j then i ∷ j ∷ ids else j ∷ rest

unfoldable pub sorted : List ℕ → List ℕ
sorted [] = []
sorted (i ∷ ids) = insert_id i (sorted ids)

unfoldable pub same_ids : List ℕ → List ℕ → Bool
same_ids [] [] = true
same_ids [] (j ∷ js) = false
same_ids (i ∷ is) [] = false
same_ids (i ∷ is) (j ∷ js) = eqb i j && same_ids is js

-- len(set(ids)) == len(ids)
unfoldable pub no_repeats : List ℕ → Bool
no_repeats [] = true
no_repeats (i ∷ ids) = not (any (eqb i) ids) && no_repeats ids

-- WITH ORDINALITY: the place of an id, where the count begins at `n`.
unfoldable pub ordinal : ℕ → ℕ → List ℕ → Option ℕ
ordinal n i [] = none
ordinal n i (j ∷ ids) = let rest = ordinal (suc n) i ids in if eqb j i then some n else rest

abbrev pub is_distinct : Option ℕ → Option ℕ → Bool
is_distinct none none = false
is_distinct none (some j) = true
is_distinct (some i) none = true
is_distinct (some i) (some j) = not (eqb i j)

abbrev pub at_place : Rule → Option ℕ → Rule
at_place r none = r
at_place r (some n) = record r { position = some n }

unfoldable pub placed : List ℕ → Rule → Rule
unfolding ordinal
placed ids r = at_place r (ordinal 1 r.id ids)

abbrev pub is_moved : Rule → Option ℕ → Bool
is_moved r none = false
is_moved r (some n) = is_distinct r.position (some n)

unfoldable pub any_moved : List ℕ → List Rule → Bool
unfolding ordinal
any_moved ids rules = any (λ r. is_moved r (ordinal 1 r.id ids)) rules

unfoldable pub is_whole : List ℕ → List ℕ → Bool
unfolding sorted same_ids no_repeats
is_whole ids current = same_ids (sorted ids) (sorted current) && no_repeats ids

unfoldable pub checked_order : List ℕ → Db → Outcome Bool
unfolding is_whole in_order
checked_order ids db =
    check (is_whole ids (map (λ r. r.id) (in_order db.rules))) 409
      "the list changed meanwhile: reload"

-- PUT /org-unit-rules-order; a line is written where a rule moved.
unfoldable pub order_rules : List ℕ → String → Db → Outcome (List ℕ) × Db
unfolding checked_order placed any_moved in_order
order_rules ids user db =
    apply (checked_order ids db)
      (λ b.
        let line =
          line_of user "rules_order" "rules"
            (order_change (map (λ r. r.id) (in_order db.rules)) ids) in
        (
          ok ids,
          if any_moved ids db.rules
              then record db { rules = map (placed ids) db.rules; audit = line ∷ db.audit }
              else db,
        ))
      db

abbrev pub is_changed : Option String → Option String → Bool
is_changed none none = false
is_changed none (some t) = true
is_changed (some s) none = true
is_changed (some s) (some t) = not (s == t)

-- `regex` is the match of a regular expression, without case.
module _ (regex : String → String → Bool) where
  unfoldable pub moved : Db → List Call
  unfolding calls_set_org_unit
  moved db = select (λ c. is_changed c.org_unit (calls_set_org_unit regex db c).org_unit) db.calls

  -- POST /org-units/recompute: how many calls were seen and how many moved.
  unfoldable pub recompute : String → Db → Outcome (ℕ × ℕ) × Db
  unfolding moved calls_set_org_unit
  recompute user db =
      let seen = length db.calls in
      let count = length (moved db) in
      (
        ok (seen, count),
        record db {
          calls = map (calls_set_org_unit regex db) db.calls;
          audit = line_of user "recompute" "calls" (recomputed seen count) ∷ db.audit;
        },
      )
