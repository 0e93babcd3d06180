-- ===== src/Manager/Units.antt =====
-- The entities of manager/db/schema_org_units.sql and the rules that attach a caller to one. A row
-- is taken without the columns that say when and by whom it was changed.
pub mod Order
pub mod Routes
mod Tests
use Prim.Native.String.{[], ◌∷◌}
use sipmedia_gw.Prelude.{
  ℕ, String, ◌==◌, Bool, true, false, ◌&&◌, ◌||◌, Option, none, some, List, [], ◌∷◌, select, any,
  ltb, eqb, if◌then◌else◌,
}
use sipmedia_gw.Text.{append, is_empty, lower, has_prefix, has_suffix, skip_chars}

pub record OrgUnit : Type 0 where
  pub code : String
  pub label : String
  pub active : Bool

pub record Rule : Type 0 where
  pub id : ℕ
  pub unit : String
  pub field : String
  pub match_type : String
  pub pattern : String
  pub description : String
  pub enabled : Bool
  pub position : Option ℕ

-- What the rules read of a call, and the entity it is attached to.
pub record Call : Type 0 where
  pub source_uri : Option String
  pub source_number : Option String
  pub source_domain : Option String
  pub source_name : Option String
  pub org_unit : Option String

-- The before and after of a line of the audit.
pub data Detail : Type 0 where
  unit_change : Option OrgUnit → Option OrgUnit → Detail
  rule_change : Option Rule → Option Rule → Detail
  order_change : List ℕ → List ℕ → Detail
  recomputed : ℕ → ℕ → Detail

pub record Line : Type 0 where
  pub actor : String
  pub action : String
  pub target : String
  pub detail : Detail

pub record Db : Type 0 where
  pub units : List OrgUnit
  pub rules : List Rule
  pub calls : List Call
  pub next_id : ℕ
  pub audit : List Line

-- ORDER BY position NULLS FIRST, id: whether the one key comes strictly before the other.
abbrev pub before_key : Option ℕ → ℕ → Option ℕ → ℕ → Bool
before_key none i none j = ltb i j
before_key none i (some q) j = true
before_key (some p) i none j = false
before_key (some p) i (some q) j = ltb p q || (eqb p q && ltb i j)

unfoldable pub before : Rule → Rule → Bool
before r s = before_key r.position r.id s.position s.id

abbrev pub insert_rule : Rule → List Rule → List Rule
insert_rule r [] = r ∷ []
insert_rule r (s ∷ rules) =
    let rest = insert_rule r rules in if before r s then r ∷ s ∷ rules else s ∷ rest

-- The rules in the order of their evaluation.
unfoldable pub in_order : List Rule → List Rule
in_order [] = []
in_order (r ∷ rules) = insert_rule r (in_order rules)

abbrev or_else : Option String → Option String → Option String
or_else none o = o
or_else (some s) o = some s

abbrev not_empty : String → Option String
not_empty [] = none
not_empty (c ∷ s) = some (c ∷ s)

abbrev or_nothing : Option String → Option String
or_nothing none = none
or_nothing (some s) = not_empty s

-- The scheme is taken off the front, whatever the case of its letters.
unfoldable pub without_scheme : String → String
unfolding has_prefix lower skip_chars
without_scheme s =
    if has_prefix "sips:" (lower s)
    then skip_chars 5 s
    else if has_prefix "sip:" (lower s)
    then skip_chars 4 s
    else s

abbrev schemeless : Option String → Option String
schemeless none = none
schemeless (some s) = not_empty (without_scheme s)

abbrev joined : Option String → Option String → Option String
joined (some number) (some domain) = some (append number (append "@" domain))
joined (some number) none = none
joined none domain = none

unfoldable pub org_unit_uri : Option String → Option String → Option String → Option String
unfolding without_scheme append
org_unit_uri uri number domain = or_else (schemeless uri) (joined number domain)

unfoldable pub org_unit_value : String → Option String → Option String → Option String
org_unit_value field uri alias =
    if field == "uri" then uri else if field == "alias" then alias else none

-- The code is one of the table, of an entity that is active.
unfoldable pub is_active : List OrgUnit → String → Bool
is_active units code = any (λ u. (u.code == code) && u.active) units

unfoldable pub is_known : List OrgUnit → String → Bool
is_known units code = any (λ u. u.code == code) units

-- The later of a rule and of another, if there is one.
abbrev pub later : Rule → Option Rule → Option Rule
later r none = some r
later r (some s) = if before r s then some s else some r

-- ORDER BY position DESC NULLS LAST, id DESC LIMIT 1
unfoldable pub latest : List Rule → Option Rule
unfolding before
latest [] = none
latest (r ∷ rules) = later r (latest rules)

abbrev pub unit_of : Option Rule → Option String
unit_of none = none
unit_of (some r) = some r.unit

-- `regex` is the match of a regular expression, without case.
module _ (regex : String → String → Bool) where
  abbrev pub matches_text : String → String → String → Bool
  matches_text type pattern value =
      if type == "prefix"
      then has_prefix (lower pattern) (lower value)
      else if type == "suffix"
      then has_suffix (lower pattern) (lower value)
      else regex pattern value

  unfoldable pub rule_matches : String → String → Option String → Bool
  unfolding has_prefix lower has_suffix
  rule_matches type pattern none = false
  rule_matches type pattern (some value) = matches_text type pattern value

  -- An enabled rule that matches what the caller shows.
  unfoldable pub applies : Option String → Option String → Rule → Bool
  unfolding rule_matches org_unit_value
  applies uri alias r =
      r.enabled && rule_matches r.match_type r.pattern (org_unit_value r.field uri alias)

  -- The entity of a caller.
  unfoldable pub resolve_org_unit : Option String → Option String → Db → Option String
  unfolding latest select is_active applies
  resolve_org_unit uri alias db =
      unit_of (latest (select (λ r. is_active db.units r.unit && applies uri alias r) db.rules))

  -- The trigger on a call that is stored.
  unfoldable pub calls_set_org_unit : Db → Call → Call
  unfolding resolve_org_unit org_unit_uri
  calls_set_org_unit db c = record c {
    org_unit =
        resolve_org_unit (org_unit_uri c.source_uri c.source_number c.source_domain) c.source_name
          db;
  }

-- Probe.
pub record Probe : Type 0 where
  pub uri : Option String
  pub alias : Option String

-- deciding[-1] if deciding else None
abbrev pub or_this : Rule → Option Rule → Option Rule
or_this r none = some r
or_this r (some s) = some s

abbrev pub last_rule : List Rule → Option Rule
last_rule [] = none
last_rule (r ∷ rules) = or_this r (last_rule rules)

abbrev pub shown_uri : Probe → Option String
shown_uri body = org_unit_uri (or_nothing body.uri) none none

-- The rows of the statement of testRules: the join leaves out a rule whose entity is not there.
unfoldable pub matching : (String → String → Bool) → Probe → Db → List Rule
unfolding in_order select applies is_known org_unit_uri
matching regex body db =
    select
      (λ r. is_known db.units r.unit && applies regex (shown_uri body) (or_nothing body.alias) r)
      (in_order db.rules)

-- POST /org-unit-rules/test: the rules that match, and the one that decides.
unfoldable pub test_rules : (String → String → Bool) → Probe → Db → List Rule × Option Rule
unfolding matching select is_active
test_rules regex body db =
    let rows = matching regex body db in
    (rows, last_rule (select (λ r. is_active db.units r.unit) rows))
