-- ===== src/Manager/Accounts/Passwords.antt =====
-- manager/api/users.py: one's own password, a reset by an administrator, and new accounts.
use sipmedia_gw.Prelude.{
  ℕ, String, ◌==◌, Bool, true, false, not, ◌||◌, Option, none, some, if◌then◌else◌,
}
use sipmedia_gw.Text.{strip, lower}
use sipmedia_gw.Outcome.{Outcome, ok, refuse, crash, ◌>>=◌}
use sipmedia_gw.Manager.Throttle.{Failures, login_throttled, record_login_failure}
use sipmedia_gw.Manager.Users.{
  Account, Db, get_user, set_password, insert_user, new_account, is_set_to,
}
use sipmedia_gw.Manager.Session.{Config, Session, check_password, password_problem, open_session}
use sipmedia_gw.Manager.Accounts.{clean_name, target, unless, is_role, audit_of, or_empty}

-- What a route may change: the table, the counts of failures, and the caller's session.
pub record Console : Type 0 where
  pub db : Db
  pub failures : Failures
  pub session : Session

abbrev with_db : Db → Console → Console
with_db db c = record { db = db; failures = c.failures; session = c.session }

abbrev with_failures : Failures → Console → Console
with_failures f c = record { db = c.db; failures = f; session = c.session }

abbrev pub no_problem : Option String → Outcome Bool
no_problem none = ok true
no_problem (some why) = refuse 400 why

-- NewUser.
pub record NewUser : Type 0 where
  pub username : String
  pub first_name : String
  pub last_name : String
  pub role : String
  pub source : String
  pub password : Option String

module _ (cfg : Config) where
  -- The session follows the row that was written.
  abbrev follow : ℕ → Option Account × Db → Console → Outcome Bool × Console
  follow now (none, db) c = (crash, with_db db c)
  follow now (some a, db) c =
      (ok true, record { db = db; failures = c.failures; session = open_session now a })

  abbrev change_with :
      Outcome Bool → String → String → String → ℕ → Console → Outcome Bool × Console
  change_with (refuse code why) salt new user now c = (refuse code why, c)
  change_with crash salt new user now c = (crash, c)
  change_with (ok b) salt new user now c =
      follow now
        (set_password user (cfg.derive salt new) false (audit_of user "password.change" user) c.db)
        c

  -- POST /account/password of the account `a` of a live session, from the address `ip`.
  unfoldable pub change_own_password :
      String
      → String
      → String
      → String
      → Account
      → String
      → ℕ
      → ℕ
      → Console
      → Outcome Bool × Console
  unfolding login_throttled record_login_failure password_problem set_password
  change_own_password salt current new confirm a ip mono now c =
      let throttle = login_throttled ip mono c.failures in
      let c' = with_failures throttle.1 c in
      if throttle.0
      then (refuse 429 "Too many attempts, retry in a minute", c')
      else if not (a.source == "local")
      then (refuse 400 "this account signs in through the identity provider", c')
      else if not (check_password cfg current a.password_hash)
      then (
        refuse 403 "current password is wrong",
        with_failures (record_login_failure ip mono c'.failures) c',
      )
      else change_with
          (do
            same ← unless (not (new == confirm)) 400 "the two new passwords differ"
            no_problem (password_problem cfg new a.username (some current)))
          salt new a.username now c'

  abbrev reset_with :
      Outcome Account → String → String → String → ℕ → Console → Outcome Bool × Console
  reset_with (refuse code why) salt p user now c = (refuse code why, c)
  reset_with crash salt p user now c = (crash, c)
  reset_with (ok a) salt p user now c =
      let done =
        set_password a.username (cfg.derive salt p) true (audit_of user "password.reset" a.username)
          c.db in
      if a.username == user
      then follow now done c
      else (elim (is_set_to done.0) [ true ↦ ok true | false ↦ crash ], with_db done.1 c)

  -- POST /users/{name}/password of the administrator `user`.
  unfoldable pub reset_password :
      String → String → String → String → ℕ → Console → Outcome Bool × Console
  unfolding target password_problem set_password
  reset_password salt name p user now c =
      reset_with
        (do
          a ← target name c.db
          own ← unless (not (a.source == "local")) 400 "this account has no local password"
          good ← no_problem (password_problem cfg p a.username none)
          ok a)
        salt p user now c

  abbrev created : Option Db → Db → Outcome Bool × Db
  created none db = (crash, db)
  created (some after) db = (ok true, after)

  abbrev create_with : Outcome Account → String → Db → Outcome Bool × Db
  create_with (refuse code why) user db = (refuse code why, db)
  create_with crash user db = (crash, db)
  create_with (ok a) user db =
      created
        (insert_user cfg.spelled a (record { actor = user; action = "create"; target = a.username })
          db)
        db

  -- The row that POST /users writes. `is_email` is the test of the pattern of an address.
  unfoldable pub new_row : (String → Bool) → String → NewUser → Db → Outcome Account
  unfolding strip lower clean_name password_problem get_user
  new_row is_email salt body db =
      let name = lower (strip body.username) in
      let p = or_empty body.password in
      do
        spelled ← unless (not (is_email name)) 400 "username must be an e-mail address"
        first ← clean_name (some body.first_name) "first name"
        last ← clean_name (some body.last_name) "last name"
        role ← unless (not (is_role body.role)) 400 "role must be one of admin, operator"
        known ←
            unless (not ((body.source == "local") || (body.source == "proconnect"))) 400
              "source must be one of local, proconnect"
        local ←
            unless (not (body.source == "local")) 400
              "ProConnect accounts arrive with the SSO integration"
        good ← no_problem (password_problem cfg p name none)
        free ← unless (is_set_to (get_user name db)) 409 "this username already exists"
        ok (
            new_account name body.role body.source (some (cfg.derive salt p)) true (some first)
              (some last))

  unfoldable pub create_user : (String → Bool) → String → NewUser → String → Db → Outcome Bool × Db
  unfolding new_row insert_user
  create_user is_email salt body user db = create_with (new_row is_email salt body db) user db
