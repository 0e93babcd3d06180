-- ===== src/Manager/Units/Routes/Audited.antt =====
-- manager/api/org_units.py: a write and the line of the audit it is written with.
use sipmedia_gw.Prelude.{
  ℕ, String, ◌≡◌, refl, Bool, true, false, ◌⊎◌, inl, inr, List, ◌∷◌, if◌then◌else◌,
}
use sipmedia_gw.Outcome.{Outcome, ok, refuse, crash}
use sipmedia_gw.Manager.Units.{Line, Db}
use sipmedia_gw.Manager.Units.Routes.{
  NewUnit, UnitPatch, RuleBody, apply, new_unit, changed_unit, new_rule, create_unit, update_unit,
  create_rule,
}
use sipmedia_gw.Manager.Units.Routes.Changes.{
  changed_rule, find_rule, checked_order, any_moved, update_rule, delete_rule, order_rules,
  recompute,
}

-- The writes that the routes take.
pub data Write : Type 0 where
  to_create_unit : NewUnit → Write
  to_update_unit : String → UnitPatch → Write
  to_create_rule : RuleBody → Write
  to_update_rule : ℕ → RuleBody → Write
  to_delete_rule : ℕ → Write
  to_order : List ℕ → Write
  to_recompute : Write

-- What the handler of a write leaves.
unfoldable pub run_write : (String → String → Bool) → String → Write → Db → Db
unfolding create_unit update_unit create_rule update_rule delete_rule order_rules recompute
run_write regex user (to_create_unit body) db = (create_unit body user db).1
run_write regex user (to_update_unit code body) db = (update_unit code body user db).1
run_write regex user (to_create_rule body) db = (create_rule body user db).1
run_write regex user (to_update_rule i body) db = (update_rule i body user db).1
run_write regex user (to_delete_rule i) db = (delete_rule i user db).1
run_write regex user (to_order ids) db = (order_rules ids user db).1
run_write regex user to_recompute db = (recompute regex user db).1

-- A table is as it was, or has one more line, of the user's.
abbrev pub Logged : String → Db → Db → Type 0
Logged user db after =
    (after ≡ db) ⊎ ((line : Line) × (line.actor ≡ user) × (after.audit ≡ line ∷ db.audit))

apply-Logged :
    {A B : Type 0} (user : String) (o : Outcome A) (change : A → Outcome B × Db) (db : Db)
    → ((x : A) → Logged user db (change x).1)
    → Logged user db (apply o change db).1
apply-Logged user (refuse n d) change db h = inl refl
apply-Logged user crash change db h = inl refl
apply-Logged user (ok x) change db h = h x

if-Logged :
    (user : String) (b : Bool) (db x y : Db)
    → Logged user db x
    → Logged user db y
    → Logged user db (if b then x else y)
if-Logged user true db x y h k = h
if-Logged user false db x y h k = k

-- Whatever an administrator writes, the change stands with one line of theirs.
pub run_write-Logged :
    (regex : String → String → Bool) (user : String) (w : Write) (db : Db)
    → Logged user db (run_write regex user w db)
unfolding run_write
run_write-Logged regex user (to_create_unit body) db =
    apply-Logged user (new_unit body db) _ db (λ u. inr (_, refl, refl))
run_write-Logged regex user (to_update_unit code body) db =
    apply-Logged user (changed_unit code body db) _ db (λ u. inr (_, refl, refl))
run_write-Logged regex user (to_create_rule body) db =
    apply-Logged user (new_rule body db) _ db (λ u. inr (_, refl, refl))
run_write-Logged regex user (to_update_rule i body) db =
    apply-Logged user (changed_rule i body db) _ db (λ u. inr (_, refl, refl))
run_write-Logged regex user (to_delete_rule i) db =
    apply-Logged user (find_rule i db.rules) _ db (λ u. inr (_, refl, refl))
run_write-Logged regex user (to_order ids) db =
    apply-Logged user (checked_order ids db) _ db
      (λ u. if-Logged user (any_moved ids db.rules) db _ db (inr (_, refl, refl)) (inl refl))
run_write-Logged regex user to_recompute db = inr (_, refl, refl)
