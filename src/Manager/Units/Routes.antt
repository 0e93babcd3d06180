-- ===== src/Manager/Units/Routes.antt =====
-- manager/api/org_units.py: the writes of an administrator on the entities and their rules.
pub mod Changes
pub mod Deciding
pub mod Newest
pub mod Placed
pub mod Audited
use Prim.Native.Char.{Char, code}
use Prim.Native.String.{[], ◌∷◌}
use sipmedia_gw.Prelude.{
  ℕ, ◌+◌, max, ◌≡◌, refl, ap, String, ◌==◌, Bool, true, false, not, ◌&&◌, ◌||◌, Option, none, some,
  List, [], ◌∷◌, map, select, any, length, ltb, leb, eqb, if◌then◌else◌,
}
use sipmedia_gw.Text.{append, is_empty, strip, lower, upper, show}
use sipmedia_gw.Outcome.{Outcome, ok, refuse, crash, ◌>>=◌}
use sipmedia_gw.Manager.Session.{size}
use sipmedia_gw.Manager.Units.{
  OrgUnit, Rule, Call, Detail, unit_change, rule_change, order_change, recomputed, Line, Db,
  in_order, is_known, calls_set_org_unit,
}

pub record NewUnit : Type 0 where
  pub new_code : String
  pub new_label : String

pub record UnitPatch : Type 0 where
  pub label_to : Option String
  pub active_to : Option Bool

pub record RuleBody : Type 0 where
  pub to_unit : String
  pub on_field : String
  pub by_match : String
  pub with_pattern : String
  pub described : String
  pub set_active : Bool

unfoldable pub text : String → String → ℕ → Outcome String
unfolding strip size append show
text value what limit =
    if is_empty (strip value)
    then refuse 400 (append what " is required")
    else if not (value == strip value)
    then refuse 400 (append what " must not start or end with a space")
    else if ltb limit (size value)
    then refuse 400 (append what (append ": " (append (show limit) " characters at most")))
    else ok value

unfoldable pub check_rule : RuleBody → Outcome (String × String)
unfolding text
check_rule body =
    if not ((body.on_field == "uri") || (body.on_field == "alias"))
    then refuse 400 "field must be one of uri, alias"
    else if not ((body.by_match == "prefix") || (body.by_match == "suffix"))
    then refuse 400 "match_type must be one of prefix, suffix"
    else (do
      pattern ← text body.with_pattern "pattern" 128
      description ← text body.described "description" 200
      ok (pattern, description))

abbrev pub is_capital : Char → Bool
is_capital c = (leb 65 (code c) && leb (code c) 90) || (leb 48 (code c) && leb (code c) 57)

abbrev pub are_code : String → Bool
are_code [] = true
are_code (c ∷ s) = (is_capital c || eqb (code c) 95 || eqb (code c) 45) && are_code s

-- CODE.match
abbrev pub is_code : String → Bool
is_code [] = false
is_code (c ∷ s) = is_capital c && are_code s && leb (size s) 31

abbrev pub check : Bool → ℕ → String → Outcome Bool
check false number detail = refuse number detail
check true number detail = ok true

-- The change of a request, or the table as it was.
abbrev pub apply : {A B : Type 0} → Outcome A → (A → Outcome B × Db) → Db → Outcome B × Db
apply (refuse number detail) change db = (refuse number detail, db)
apply crash change db = (crash, db)
apply (ok x) change db = change x

pub apply-ok :
    {A B : Type 0} (o : Outcome A) (change : A → Outcome B × Db) (db after : Db) (y : B)
    → apply o change db ≡ (ok y, after)
    → (x : A) × (o ≡ ok x) × (change x ≡ (ok y, after))
apply-ok (refuse number detail) change db after y e = cc (ap (λ z. z.0) e)
apply-ok crash change db after y e = cc (ap (λ z. z.0) e)
apply-ok (ok x) change db after y e = (x, refl, e)

abbrev pub line_of : String → String → String → Detail → Line
line_of user action target detail = record {
  actor = user;
  action = action;
  target = target;
  detail = detail;
}

unfoldable pub new_unit : NewUnit → Db → Outcome OrgUnit
unfolding text strip upper size is_known
new_unit body db =
    let code = upper (strip body.new_code) in
    (do
      shaped ← check (is_code code) 400 "code: capitals, digits, - and _, 32 characters at most"
      label ← text body.new_label "label" 80
      free ← check (not (is_known db.units code)) 409 "this code already exists"
      ok (record { code = code; label = label; active = true }))

-- POST /org-units
unfoldable pub create_unit : NewUnit → String → Db → Outcome OrgUnit × Db
unfolding new_unit
create_unit body user db =
    apply (new_unit body db)
      (λ u. (
        ok u,
        record db {
          units = u ∷ db.units;
          audit = line_of user "unit_create" u.code (unit_change none (some u)) ∷ db.audit;
        },
      ))
      db

unfoldable pub find_unit : String → List OrgUnit → Outcome OrgUnit
find_unit code [] = refuse 404 "no such entity"
find_unit code (u ∷ units) = if u.code == code then ok u else find_unit code units

abbrev pub or_kept {ℓ} : {A : Type ℓ} → Option A → A → A
or_kept none x = x
or_kept (some y) x = y

unfoldable pub text_if : Option String → Outcome (Option String)
unfolding text
text_if none = ok none
text_if (some s) = text s "label" 80 >>= (λ t. ok (some t))

-- The entity as it was and as it becomes.
unfoldable pub changed_unit : String → UnitPatch → Db → Outcome (OrgUnit × OrgUnit)
unfolding text_if find_unit
changed_unit code body db = do
  label ← text_if body.label_to
  u ← find_unit code db.units
  ok (u, record u { label = or_kept label u.label; active = or_kept body.active_to u.active })

unfoldable pub put_unit : OrgUnit → OrgUnit → OrgUnit
put_unit u v = if v.code == u.code then u else v

-- PUT /org-units/{code}
unfoldable pub update_unit : String → UnitPatch → String → Db → Outcome OrgUnit × Db
unfolding changed_unit
update_unit code body user db =
    apply (changed_unit code body db)
      (λ c. (
        ok c.1,
        record db {
          units = map (put_unit c.1) db.units;
          audit = line_of user "unit_update" code (unit_change (some c.0) (some c.1)) ∷ db.audit;
        },
      ))
      db

unfoldable pub known_unit : String → Db → Outcome Bool
unfolding is_known
known_unit code db = check (is_known db.units code) 400 "no such entity"

abbrev pub is_other : Option ℕ → ℕ → Bool
is_other none i = true
is_other (some j) i = not (eqb i j)

-- Whether a rule is the same, but for case.
unfoldable pub is_same : String → String → String → Rule → Bool
unfolding lower
is_same field type pattern r =
    (r.field == field) && (r.match_type == type) && (lower r.pattern == lower pattern)

unfoldable pub duplicate : String → String → String → Option ℕ → List Rule → Outcome Bool
unfolding is_same append show
duplicate field type pattern except [] = ok true
duplicate field type pattern except (r ∷ rules) =
    let rest = duplicate field type pattern except rules in
    if is_same field type pattern r && is_other except r.id
    then refuse 409 (append "the same rule already exists (rule " (append (show r.id) ")"))
    else rest

-- max(position), where a rule has one.
unfoldable pub max_position : List Rule → ℕ
max_position [] = 0
max_position (r ∷ rules) = max (or_kept r.position 0) (max_position rules)

unfoldable pub rule_of : ℕ → Option ℕ → RuleBody → String × String → Rule
rule_of i position body checked = record {
  id = i;
  unit = body.to_unit;
  field = body.on_field;
  match_type = body.by_match;
  pattern = checked.0;
  description = checked.1;
  enabled = body.set_active;
  position = position;
}

unfoldable pub new_rule : RuleBody → Db → Outcome Rule
unfolding check_rule known_unit duplicate max_position rule_of
new_rule body db = do
  checked ← check_rule body
  known ← known_unit body.to_unit db
  free ← duplicate body.on_field body.by_match checked.0 none db.rules
  ok (rule_of db.next_id (some (max_position db.rules + 1)) body checked)

abbrev pub rule_name : ℕ → String
rule_name i = append "rule " (show i)

-- POST /org-unit-rules
unfoldable pub create_rule : RuleBody → String → Db → Outcome Rule × Db
unfolding new_rule append show
create_rule body user db =
    apply (new_rule body db)
      (λ r. (
        ok r,
        record db {
          rules = r ∷ db.rules;
          next_id = db.next_id + 1;
          audit =
              line_of user "rule_create" (rule_name r.id) (rule_change none (some r)) ∷ db.audit;
        },
      ))
      db
