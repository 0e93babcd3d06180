-- ===== src/Manager/Accounts.antt =====
-- manager/api/users.py: what the routes let a user change, of their own account and of others'.
pub mod Spared
pub mod LastAdmin
pub mod Passwords
use Prim.Native.String.{[], ◌∷◌}
use sipmedia_gw.Prelude.{
  ℕ, ◌+◌, String, ◌==◌, Bool, true, false, not, ◌&&◌, ◌||◌, Option, none, some, leb, ltb,
  if◌then◌else◌,
}
use sipmedia_gw.Text.{append, is_empty, strip, lower}
use sipmedia_gw.Outcome.{Outcome, ok, refuse, crash, ◌>>=◌}
use sipmedia_gw.Manager.Users.{
  Account, Audit, Db, Changes, get_user, set_password, update_account, delete_user, insert_user,
  new_account, count_active_admins, is_active_admin, is_set_to,
}
use sipmedia_gw.Manager.Session.{
  Config, Session, size, check_password, password_problem, open_session,
}

abbrev pub or_empty : Option String → String
or_empty none = ""
or_empty (some s) = s

abbrev pub audit_of : String → String → String → Option Audit
audit_of actor action target = some (record { actor = actor; action = action; target = target })

unfoldable pub clean_name : Option String → String → Outcome String
unfolding strip size append
clean_name value what =
    let text = strip (or_empty value) in
    if is_empty text || ltb 80 (size text)
    then refuse 400 (append what " is required (80 characters at most)")
    else ok text

abbrev pub found : Option Account → Outcome Account
found none = refuse 404 "no such user"
found (some a) = ok a

unfoldable pub target : String → Db → Outcome Account
unfolding get_user
target name db = found (get_user name db)

unfoldable pub last_admin : Account → Db → Bool
unfolding count_active_admins
last_admin a db = is_active_admin a && leb (count_active_admins db.users) 1

-- A test that must not hold.
abbrev pub unless : Bool → ℕ → String → Outcome Bool
unless true code detail = refuse code detail
unless false code detail = ok true

abbrev pub is_role : String → Bool
is_role role = (role == "admin") || (role == "operator")

-- UserPatch.
pub record Patch : Type 0 where
  pub new_role : Option String
  pub new_enabled : Option Bool
  pub new_first : Option String
  pub new_last : Option String

abbrev or_held : Option String → Option String → Option String
or_held none held = held
or_held (some s) held = some s

abbrev is_text_of : String → Option String → Bool
is_text_of s none = false
is_text_of s (some t) = s == t

-- The name that a request changes, if it changes one.
unfoldable pub named : Patch → Account → Outcome (Option (String × String))
unfolding clean_name
named body a =
    if is_set_to body.new_first || is_set_to body.new_last
    then (do
      first ← clean_name (or_held body.new_first a.first_name) "first name"
      last ← clean_name (or_held body.new_last a.last_name) "last name"
      ok (
          if is_text_of first a.first_name && is_text_of last a.last_name
          then none
          else some (first, last)))
    else ok none

-- The role that a request of `user` changes.
unfoldable pub promoted : Option String → Account → String → Db → Outcome (Option String)
unfolding last_admin
promoted none a user db = ok none
promoted (some role) a user db = if role == a.role then ok none else (do
  known ← unless (not (is_role role)) 400 "role must be one of admin, operator"
  other ← unless (a.username == user) 409 "an account cannot change its own role"
  spare ← unless (last_admin a db) 409 "the last administrator cannot be demoted"
  ok (some role))

unfoldable pub disabled_as : Account → String → Db → Outcome (Option Bool)
unfolding last_admin
disabled_as a user db = do
  other ← unless (a.username == user) 409 "an account cannot disable itself"
  spare ← unless (last_admin a db) 409 "the last administrator cannot be disabled"
  ok (some false)

-- The state that a request of `user` changes.
unfoldable pub enabled_as : Option Bool → Account → String → Db → Outcome (Option Bool)
unfolding disabled_as
enabled_as none a user db = ok none
enabled_as (some true) a user db = if a.enabled then ok none else ok (some true)
enabled_as (some false) a user db = if a.enabled then disabled_as a user db else ok none

-- The changes of a request, all checked before any is written.
unfoldable pub checked : Patch → Account → String → Db → Outcome Changes
unfolding named promoted enabled_as
checked body a user db = do
  name ← named body a
  role ← promoted body.new_role a user db
  state ← enabled_as body.new_enabled a user db
  ok (record { name = name; role = role; enabled = state })

abbrev pub answer : Option Account × Db → Outcome Account × Db
answer (none, db) = (refuse 404 "no such user", db)
answer (some a, db) = (ok a, db)

abbrev pub update_with : Outcome Changes → Account → String → Db → Outcome Account × Db
update_with (refuse c d) a user db = (refuse c d, db)
update_with crash a user db = (crash, db)
update_with (ok c) a user db =
    if is_set_to c.name || (is_set_to c.role || is_set_to c.enabled)
    then answer (update_account a.username c (audit_of user "update" a.username) db)
    else (ok a, db)

abbrev pub update_target : Outcome Account → Patch → String → Db → Outcome Account × Db
update_target (refuse c d) body user db = (refuse c d, db)
update_target crash body user db = (crash, db)
update_target (ok a) body user db = update_with (checked body a user db) a user db

-- PUT /users/{name} of the administrator `user`.
unfoldable pub update_user : String → Patch → String → Db → Outcome Account × Db
unfolding target checked update_account
update_user name body user db = update_target (target name db) body user db

abbrev pub delete_allowed : Account → String → Db → Outcome Bool
delete_allowed a user db = do
  other ← unless (a.username == user) 409 "an account cannot delete itself"
  unless (last_admin a db) 409 "the last administrator cannot be deleted"

abbrev pub delete_with : Outcome Bool → Account → String → Db → Outcome Bool × Db
delete_with (refuse c d) a user db = (refuse c d, db)
delete_with crash a user db = (crash, db)
delete_with (ok b) a user db =
    (ok true, (delete_user a.username (audit_of user "delete" a.username) db).1)

abbrev pub delete_target : Outcome Account → String → Db → Outcome Bool × Db
delete_target (refuse c d) user db = (refuse c d, db)
delete_target crash user db = (crash, db)
delete_target (ok a) user db = delete_with (delete_allowed a user db) a user db

-- DELETE /users/{name}.
unfoldable pub delete : String → String → Db → Outcome Bool × Db
unfolding target last_admin delete_user
delete name user db = delete_target (target name db) user db
