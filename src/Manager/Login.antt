-- ===== src/Manager/Login.antt =====
-- manager/app.py: POST /auth/login.
pub mod Opens
use Prim.Native.String.{[], ◌∷◌}
use sipmedia_gw.Prelude.{ℕ, String, Bool, true, false, not, Option, none, some, if◌then◌else◌}
use sipmedia_gw.Text.{is_empty, strip}
use sipmedia_gw.Outcome.{Outcome, ok, refuse, crash, ◌>>=◌}
use sipmedia_gw.Manager.Throttle.{
  Failures, login_throttled, record_login_failure, clear_login_failures,
}
use sipmedia_gw.Manager.Users.{Account, Db, touch_login}
use sipmedia_gw.Manager.Session.{Config, Session, authenticate, open_session}
use sipmedia_gw.Manager.Accounts.Passwords.{Console}

-- A sign-in: whether it is declared as JSON, and the body's two fields: the name as text ("" where
-- it is absent or empty, or where the body is not an object), the password where it is text.
pub record Attempt : Type 0 where
  pub is_json : Bool
  pub username : String
  pub password : Option String

abbrev pub name_of : String → String
name_of u = strip (elim (is_empty u) [ true ↦ "admin" | false ↦ u ])

abbrev pub text_of : Option String → String
text_of none = ""
text_of (some p) = p

module _ (cfg : Config) where
  abbrev pub signed :
      Outcome (Option Account × Db)
      → String
      → ℕ
      → ℕ
      → Failures
      → Console
      → Outcome Account × Console
  signed (refuse code why) ip mono now f c =
      (refuse code why, record { db = c.db; failures = f; session = c.session })
  signed crash ip mono now f c = (crash, record { db = c.db; failures = f; session = c.session })
  signed (ok (none, db)) ip mono now f c = (
    refuse 401 "Invalid username or password",
    record { db = db; failures = record_login_failure ip mono f; session = c.session },
  )
  signed (ok (some a, db)) ip mono now f c = (
    ok a,
    record {
      db = touch_login a.username now db;
      failures = clear_login_failures ip f;
      session = open_session now a;
    },
  )

  -- The time of the session is that of the table's clock too. From the address `ip`, at `mono` of the throttle's clock and `now` of the session's.
  unfoldable pub login : String → Attempt → String → ℕ → ℕ → Console → Outcome Account × Console
  unfolding login_throttled record_login_failure clear_login_failures authenticate touch_login strip
  login salt attempt ip mono now c =
      let throttle = login_throttled ip mono c.failures in
      let c' : Console = record { db = c.db; failures = throttle.1; session = c.session } in
      if throttle.0
      then (refuse 429 "Too many attempts, retry in a minute", c')
      else if not attempt.is_json
      then (refuse 415 "Expected application/json", c')
      else signed (authenticate cfg salt (name_of attempt.username) (text_of attempt.password) c.db)
          ip mono now throttle.1 c
