-- ===== src/Manager/Session.antt =====
-- manager/auth.py: passwords, signing in, and what makes a session good.
pub mod Good
pub mod Revived
pub mod Credentials
use Prim.Native.String.{[], ◌∷◌}
use sipmedia_gw.Prelude.{
  ℕ, ◌+◌, ◌-◌, ◌*◌, String, ◌==◌, Bool, true, false, not, ◌&&◌, ◌||◌, Option, none, some, eqb, ltb,
  if◌then◌else◌,
}
use sipmedia_gw.Text.{append, is_empty, lower, show}
use sipmedia_gw.Outcome.{Outcome, ok, refuse, crash, ◌>>=◌}
use sipmedia_gw.Manager.Users.{
  Account, Audit, Db, get_user, count_users, insert_user, new_account, bump_epoch,
}

-- The environment, and scrypt: `derive salt p` is the stored text of a password, `matches p h` tells
-- whether `h` is one of `p`'s. `spelled` is the table's test of a name.
pub record Config : Type 0 where
  pub min_length : ℕ
  pub default_password : String
  pub session_hours : ℕ
  pub derive : String → String → String
  pub matches : String → String → Bool
  pub spelled : String → Bool

-- The number of code points.
unfoldable pub size : String → ℕ
size [] = 0
size (c ∷ s) = 1 + size s

abbrev pub is_usable : Account → Bool
is_usable a = a.enabled && (a.source == "local")

module _ (cfg : Config) where
  abbrev pub check_password : String → Option String → Bool
  check_password p none = false
  check_password p (some h) = not (is_empty h) && cfg.matches p h

  abbrev is_current : String → Option String → Bool
  is_current p none = false
  is_current p (some q) = p == q

  unfoldable pub password_problem : String → String → Option String → Option String
  unfolding size lower append show
  password_problem p username current =
      if ltb (size p) cfg.min_length
      then some (append "password must be at least " (append (show cfg.min_length) " characters"))
      else if ltb 256 (size p)
      then some "password must be at most 256 characters"
      else if lower p == lower username
      then some "password must differ from the username"
      else if p == cfg.default_password
      then some "password must differ from the default password"
      else if is_current p current
      then some "new password must differ from the current one"
      else none

  -- The first account, where there is none.
  abbrev inserted : Option Db → Outcome Db
  inserted none = crash
  inserted (some db) = ok db

  unfoldable pub ensure_bootstrap : String → Db → Outcome Db
  unfolding count_users insert_user
  ensure_bootstrap salt db = elim (eqb (count_users db.users) 0) [
    | false ↦ ok db
    | true ↦ inserted (
        insert_user cfg.spelled
          (new_account "admin" "admin" "local" (some (cfg.derive salt cfg.default_password)) true
            none none)
          (record { actor = "bootstrap"; action = "create"; target = "admin" }) db)
  ]

  -- The account whose password it is.
  abbrev pub verified : String → Option Account → Option Account
  verified p none = none
  verified p (some a) = if is_usable a && check_password p a.password_hash then some a else none

  -- The account for these credentials, and the table that was read.
  unfoldable pub authenticate : String → String → String → Db → Outcome (Option Account × Db)
  unfolding ensure_bootstrap get_user
  authenticate salt username p db =
      ensure_bootstrap salt db >>= λ db'. ok (verified p (get_user username db'), db')

-- The cookie's content.
pub record Session : Type 0 where
  pub user : Option String
  pub epoch : Option ℕ
  pub at : Option ℕ

abbrev pub signed_out : Session
signed_out = record { user = none; epoch = none; at = none }

abbrev pub open_session : ℕ → Account → Session
open_session now a = record { user = some a.username; epoch = some a.session_epoch; at = some now }

abbrev end_everywhere : Option String → Db → Db
end_everywhere none db = db
end_everywhere (some name) db = elim (is_empty name) [ true ↦ db | false ↦ bump_epoch name db ]

unfoldable pub close_session : Session → Db → Session × Db
unfolding bump_epoch
close_session s db = (signed_out, end_everywhere s.user db)

abbrev is_epoch : ℕ → Option ℕ → Bool
is_epoch n none = false
is_epoch n (some m) = eqb n m

abbrev pub is_recent : ℕ → ℕ → Option ℕ → Bool
is_recent hours now none = false
is_recent hours now (some at) = not (ltb (hours * 3600) (now - at))

-- The account that a session still stands for.
abbrev pub current : Option ℕ → Option Account → Option Account
current epoch none = none
current epoch (some a) = if a.enabled && is_epoch a.session_epoch epoch then some a else none

abbrev pub kept_or_cleared : Option Account → Session → Option Account × Session
kept_or_cleared none s = (none, signed_out)
kept_or_cleared (some a) s = (some a, s)

abbrev pub session_of : ℕ → ℕ → Session → Option String → Db → Option Account × Session
session_of hours now s none db = (none, s)
session_of hours now s (some name) db = elim (is_empty name) [
  | true ↦ (none, s)
  | false ↦ elim (is_recent hours now s.at) [
    | false ↦ (none, signed_out)
    | true ↦ kept_or_cleared (current s.epoch (get_user name db)) s
  ]
]

-- The account behind a session, or none, and the session afterwards. Times are in seconds.
unfoldable pub session_account : Config → ℕ → Session → Db → Option Account × Session
unfolding get_user
session_account cfg now s db = session_of cfg.session_hours now s s.user db

abbrev or_401 : Option Account → Outcome Account
or_401 none = refuse 401 "Authentication required"
or_401 (some a) = ok a

unfoldable pub require_session : Config → ℕ → Session → Db → Outcome Account
unfolding session_account
require_session cfg now s db = or_401 (session_account cfg now s db).0

unfoldable pub require_user : Config → ℕ → Session → Db → Outcome Account
unfolding require_session
require_user cfg now s db = require_session cfg now s db >>= λ a.
    if a.must_change_password then refuse 403 "password change required" else ok a

unfoldable pub require_admin : Config → ℕ → Session → Db → Outcome Account
unfolding require_user
require_admin cfg now s db = require_user cfg now s db >>= λ a.
    if a.role == "admin" then ok a else refuse 403 "Administrator role required"
