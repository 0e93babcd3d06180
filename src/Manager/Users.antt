-- ===== src/Manager/Users.antt =====
-- manager/users.py and manager/db/schema_users.sql: the user table and its audit lines.
pub mod Epochs
pub mod Ended
pub mod Admins
use sipmedia_gw.Prelude.{
  ℕ, ◌+◌, String, ◌==◌, Bool, true, false, not, ◌&&◌, ◌||◌, Option, none, some, List, [], ◌∷◌, ◌++◌,
  if◌then◌else◌,
}
use sipmedia_gw.Text.{lower}

-- A row of manager_users, without the number and the dates but that of the last sign-in.
pub record Account : Type 0 where
  pub username : String
  pub first_name : Option String
  pub last_name : Option String
  pub role : String
  pub source : String
  pub external_id : Option String
  pub password_hash : Option String
  pub must_change_password : Bool
  pub enabled : Bool
  pub session_epoch : ℕ
  pub last_login_at : Option ℕ

-- A row of user_audit: who, what, to whom.
pub record Audit : Type 0 where
  pub actor : String
  pub action : String
  pub target : String

pub record Db : Type 0 where
  pub users : List Account
  pub audit : List Audit

unfoldable pub find : String → List Account → Option Account
find name [] = none
find name (a ∷ rest) = if a.username == name then some a else find name rest

unfoldable pub get_user : String → Db → Option Account
unfolding lower find
get_user name db = find (lower name) db.users

unfoldable pub count_users : List Account → ℕ
count_users [] = 0
count_users (a ∷ rest) = 1 + count_users rest

abbrev pub is_active_admin : Account → Bool
is_active_admin a = (a.role == "admin") && a.enabled

unfoldable pub count_active_admins : List Account → ℕ
count_active_admins [] = 0
count_active_admins (a ∷ rest) =
    let n = count_active_admins rest in if is_active_admin a then 1 + n else n

-- UPDATE … WHERE username = name: the rows, changed, and the first one that was.
unfoldable pub update_where : (Account → Account) → String → List Account → List Account
update_where f name [] = []
update_where f name (a ∷ others) =
    let rest = update_where f name others in if a.username == name then f a ∷ rest else a ∷ rest

unfoldable pub delete_where : String → List Account → List Account
delete_where name [] = []
delete_where name (a ∷ others) =
    let rest = delete_where name others in if a.username == name then rest else a ∷ rest

-- The audit line of a write that touched a row.
abbrev pub audit_if : Option Account → Option Audit → List Audit → List Audit
audit_if none line lines = lines
audit_if (some a) none lines = lines
audit_if (some a) (some line) lines = line ∷ lines

abbrev pub written : (Account → Account) → Option Account → Option Account
written f none = none
written f (some a) = some (f a)

-- `_write` of an UPDATE that returns the row.
unfoldable pub write_update : (Account → Account) → String → Option Audit → Db → Option Account × Db
unfolding lower find update_where
write_update f name line db =
    let found = find (lower name) db.users in
    (
      written f found,
      record { users = update_where f (lower name) db.users; audit = audit_if found line db.audit },
    )

abbrev pub with_password : String → Bool → Account → Account
with_password hash must a = record a {
  password_hash = some hash;
  must_change_password = must;
  session_epoch = a.session_epoch + 1;
}

unfoldable pub set_password : String → String → Bool → Option Audit → Db → Option Account × Db
unfolding write_update
set_password name hash must line db = write_update (with_password hash must) name line db

-- What an administrator changes: the name, the role, the state.
pub record Changes : Type 0 where
  pub name : Option (String × String)
  pub role : Option String
  pub enabled : Option Bool

abbrev pub is_set_to {ℓ} : {A : Type ℓ} → Option A → Bool
is_set_to none = false
is_set_to (some a) = true

abbrev pub or_kept {ℓ} : {A : Type ℓ} → Option A → A → A
or_kept none kept = kept
or_kept (some a) kept = a

abbrev first_of : Option (String × String) → Option String → Option String
first_of none kept = kept
first_of (some (first, last)) kept = some first

abbrev last_of : Option (String × String) → Option String → Option String
last_of none kept = kept
last_of (some (first, last)) kept = some last

abbrev pub with_changes : Changes → Account → Account
with_changes c a = record a {
  first_name = first_of c.name a.first_name;
  last_name = last_of c.name a.last_name;
  role = or_kept c.role a.role;
  enabled = or_kept c.enabled a.enabled;
  session_epoch =
      if is_set_to c.role || is_set_to c.enabled then a.session_epoch + 1 else a.session_epoch;
}

unfoldable pub update_account : String → Changes → Option Audit → Db → Option Account × Db
unfolding write_update get_user
update_account name c line db =
    if is_set_to c.name || (is_set_to c.role || is_set_to c.enabled)
    then write_update (with_changes c) name line db
    else (get_user name db, db)

abbrev pub with_next_epoch : Account → Account
with_next_epoch a = record a { session_epoch = a.session_epoch + 1 }

unfoldable pub bump_epoch : String → Db → Db
unfolding lower update_where
bump_epoch name db = record {
  users = update_where with_next_epoch (lower name) db.users;
  audit = db.audit;
}

abbrev pub with_login : ℕ → Account → Account
with_login now a = record a { last_login_at = some now }

-- touchLogin, at a time.
unfoldable pub touch_login : String → ℕ → Db → Db
unfolding lower update_where
touch_login name now db = record {
  users = update_where (with_login now) (lower name) db.users;
  audit = db.audit;
}

unfoldable pub delete_user : String → Option Audit → Db → Bool × Db
unfolding lower find delete_where
delete_user name line db =
    let found = find (lower name) db.users in
    (
      is_set_to found,
      record { users = delete_where (lower name) db.users; audit = audit_if found line db.audit },
    )

-- No caller gives an identifier of the identity provider.
abbrev pub new_account :
    String → String → String → Option String → Bool → Option String → Option String → Account
new_account name role source hash must first last = record {
  username = lower name;
  first_name = first;
  last_name = last;
  role = role;
  source = source;
  external_id = none;
  password_hash = hash;
  must_change_password = must;
  enabled = true;
  session_epoch = 0;
  last_login_at = none;
}

-- The table's checks of a row, its name's spelling apart: the role, the source, a hash exactly for a
-- local account and an identifier exactly for another one.
abbrev pub is_valid : Account → Bool
is_valid a =
    ((a.role == "admin") || (a.role == "operator"))
    && (((a.source == "local") && (is_set_to a.password_hash && not (is_set_to a.external_id)))
        || ((a.source == "proconnect")
            && (not (is_set_to a.password_hash) && is_set_to a.external_id)))

-- The INSERT: `none` where the table refuses the row. `spelled` is the table's test of the name,
-- `^[a-z0-9][a-z0-9._+@-]{1,63}$`.
unfoldable pub insert_user : (String → Bool) → Account → Audit → Db → Option Db
unfolding find
insert_user spelled a line db =
    if spelled a.username && (is_valid a && not (is_set_to (find a.username db.users)))
    then some (record { users = db.users ++ (a ∷ []); audit = line ∷ db.audit })
    else none
