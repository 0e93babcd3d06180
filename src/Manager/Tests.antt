-- ===== src/Manager/Tests.antt =====
-- manager: accounts, sessions and sign-ins on a concrete table.
use sipmedia_gw.Prelude.{
  ◌≡◌, refl, ◌==◌, true, false, not, none, some, [], ◌∷◌, lookup, arith, leb, ltb, ◌&&◌, ◌+◌,
}
use sipmedia_gw.Text.{is_empty, lower, append}
use sipmedia_gw.Manager.Throttle.{login_throttled, purge, lock_seconds, max_failures}
use sipmedia_gw.Manager.Throttle.Lock.{fail_all, throttle_lock}
use sipmedia_gw.Manager.Users.{
  Account, Audit, Db, find, count_users, count_active_admins, new_account,
}
use sipmedia_gw.Manager.Users.Epochs.{password, apply_all, ends}
use sipmedia_gw.Manager.Session.{Config, open_session, session_account}
use sipmedia_gw.Manager.Session.Good.{session_account-ends}
use sipmedia_gw.Manager.Accounts.LastAdmin.{Sound, removal, serve, serve-Sound}
use sipmedia_gw.Manager.Accounts.Passwords.{Console}
use sipmedia_gw.Manager.Login.{Attempt, login}
use sipmedia_gw.Manager.Login.Opens.{Opens, login-Opens}

abbrev config : Config
config = record {
  min_length = 11;
  default_password = "manager123$";
  session_hours = 10;
  derive = λ salt p. append salt p;
  matches = λ p h. p == h;
  spelled = λ name. not (is_empty name);
}

abbrev alice : Account
alice = record {
  username = "alice@example.org";
  first_name = some "Alice";
  last_name = some "A";
  role = "admin";
  source = "local";
  external_id = none;
  password_hash = some "correct horse";
  must_change_password = false;
  enabled = true;
  session_epoch = 1;
  last_login_at = none;
}

abbrev table : Db
table = record { users = alice ∷ []; audit = [] }

abbrev bob_line : Audit
bob_line = record { actor = "bob"; action = "create"; target = "alice@example.org" }

session_account-ends_example :
    (session_account config 50 (open_session 10 alice) (
      apply_all config.spelled
        (password "alice@example.org" "hash" false none
          ∷ password "alice@example.org" "other" false none
          ∷ [])
        table)).0
    ≡ none
unfolding find lower ends
session_account-ends_example =
    session_account-ends config 10 50 alice (password "alice@example.org" "hash" false none)
      (password "alice@example.org" "other" false none ∷ []) table refl refl refl refl (refl, _)

abbrev again : Account
again = new_account "alice@example.org" "operator" "local" (some "hash") true none none

abbrev again_table : Db
again_table = record { users = again ∷ []; audit = bob_line ∷ [] }

serve-Sound_example :
    Sound
      (serve (removal "alice@example.org" "bob" ∷ removal "alice@example.org" "carol" ∷ []) table)
unfolding Sound lower find count_active_admins
serve-Sound_example =
    serve-Sound (removal "alice@example.org" "bob" ∷ removal "alice@example.org" "carol" ∷ []) table
      ((refl, refl, _), omega arith)

abbrev console : Console
console = record {
  db = table;
  failures = [];
  session = record { user = none; epoch = none; at = none };
}

abbrev attempt : Attempt
attempt = record { is_json = true; username = "alice@example.org"; password = some "correct horse" }

login-Opens_example :
    Opens config "10.0.0.1" 50 alice console (login config "salt" attempt "10.0.0.1" 5 50 console)
unfolding lower find count_users login
login-Opens_example =
    login-Opens config "salt" attempt "10.0.0.1" 5 50 console alice (refl, refl, _) refl refl refl

throttle_lock_example :
    (login_throttled "10.0.0.1" 70 (fail_all "10.0.0.1" (10 ∷ 20 ∷ 30 ∷ 40 ∷ 50 ∷ []) [])).0
    ≡ (leb max_failures 5 && ltb 70 (50 + lock_seconds))
unfolding purge lookup
throttle_lock_example =
    throttle_lock "10.0.0.1" 10 (20 ∷ 30 ∷ 40 ∷ 50 ∷ []) 70 [] refl
      (omega arith, (omega arith, (omega arith, (omega arith, _))))
