-- ===== src/Manager/Units/Tests.antt =====
-- manager/api/org_units.py: entities and rules on a concrete table.
use sipmedia_gw.Prelude.{◌≡◌, refl, String, Bool, true, false, none, some, [], ◌∷◌, select, any}
use sipmedia_gw.Text.{lower, strip, has_prefix, skip_chars, has_suffix}
use sipmedia_gw.Manager.Session.{size}
use sipmedia_gw.Manager.Units.{
  Rule, Db, Probe, before, in_order, without_scheme, org_unit_uri, org_unit_value, rule_matches,
  applies, is_active, is_known, resolve_org_unit, matching, test_rules, shown_uri, or_nothing,
  unit_of,
}
use sipmedia_gw.Manager.Units.Routes.{
  RuleBody, check_rule, known_unit, duplicate, is_same, max_position, rule_of, new_rule,
  create_rule, text,
}
use sipmedia_gw.Manager.Units.Routes.Changes.{
  sorted, same_ids, no_repeats, is_whole, checked_order, ordinal, any_moved, order_rules,
}
use sipmedia_gw.Manager.Units.Routes.Deciding.{test_rules-resolve}
use sipmedia_gw.Manager.Units.Routes.Newest.{create_rule-Decides}
use sipmedia_gw.Manager.Units.Routes.Placed.{Decides, order_rules-Decides}
use sipmedia_gw.Manager.Units.Routes.Audited.{Logged, to_order, run_write, run_write-Logged}

abbrev no_regex : String → String → Bool
no_regex pattern value = false

abbrev by_domain : Rule
by_domain = record {
  id = 1;
  unit = "LAB";
  field = "uri";
  match_type = "suffix";
  pattern = "@Sample.org";
  description = "the lab";
  enabled = true;
  position = some 2;
}

abbrev by_number : Rule
by_number = record {
  id = 2;
  unit = "UNI";
  field = "uri";
  match_type = "prefix";
  pattern = "33";
  description = "the university";
  enabled = true;
  position = some 1;
}

abbrev units_db : Db
units_db = record {
  units =
      record { code = "LAB"; label = "Lab"; active = true }
      ∷ record { code = "UNI"; label = "University"; active = true }
      ∷ [];
  rules = by_domain ∷ by_number ∷ [];
  calls = [];
  next_id = 3;
  audit = [];
}

abbrev caller : Probe
caller = record { uri = some "SIP:331@sample.ORG"; alias = none }

both_match : (test_rules no_regex caller units_db).0 ≡ (by_number ∷ by_domain ∷ [])
unfolding test_rules matching in_order before applies rule_matches org_unit_value org_unit_uri
    without_scheme has_prefix has_suffix lower select is_known any skip_chars
both_match = refl

test_rules-resolve_example :
    unit_of (test_rules no_regex caller units_db).1
    ≡ resolve_org_unit no_regex (shown_uri caller) (or_nothing caller.alias) units_db
test_rules-resolve_example = test_rules-resolve no_regex caller units_db

abbrev alias_rule : RuleBody
alias_rule = record {
  to_unit = "UNI";
  on_field = "uri";
  by_match = "prefix";
  with_pattern = "331@";
  described = "one room";
  set_active = true;
}

abbrev added : Rule
added = record {
  id = 3;
  unit = "UNI";
  field = "uri";
  match_type = "prefix";
  pattern = "331@";
  description = "one room";
  enabled = true;
  position = some 3;
}

create_rule-Decides_example :
    (test_rules no_regex caller (create_rule alias_rule "admin" units_db).1).1 ≡ some added
unfolding create_rule new_rule check_rule known_unit duplicate is_same max_position rule_of text
    strip size lower is_known any is_active applies rule_matches org_unit_value org_unit_uri
    without_scheme has_prefix skip_chars
create_rule-Decides_example =
    create_rule-Decides no_regex caller alias_rule "admin" units_db
      (create_rule alias_rule "admin" units_db).1 added refl refl refl

order_rules-Decides_example :
    Decides no_regex caller
      (1 ∷ 2 ∷ [])
      (order_rules (1 ∷ 2 ∷ []) "admin" units_db).1
      (test_rules no_regex caller (order_rules (1 ∷ 2 ∷ []) "admin" units_db).1).1
unfolding order_rules checked_order is_whole sorted same_ids no_repeats in_order before any
    any_moved ordinal
order_rules-Decides_example =
    order_rules-Decides no_regex caller (1 ∷ 2 ∷ []) (1 ∷ 2 ∷ []) "admin" units_db
      (order_rules (1 ∷ 2 ∷ []) "admin" units_db).1 refl

run_write-Logged_example :
    Logged "admin" units_db (run_write no_regex "admin" (to_order (1 ∷ 2 ∷ [])) units_db)
run_write-Logged_example = run_write-Logged no_regex "admin" (to_order (1 ∷ 2 ∷ [])) units_db
