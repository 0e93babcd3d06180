-- ===== src/Manager/Login/Opens.antt =====
-- manager/app.py: what a sign-in opens.
use sipmedia_gw.Prelude.{
  ℕ, ◌≡◌, refl, ap, ◌∙◌, sym, subst, arith, String, eq_refl, eqb, not, true, false, Option, ◌==◌,
  eq_iff, if◌then◌else◌, none, some, lookup, lookup-erase, Bool-cases, inl, inr, if_true, if_false,
}
use sipmedia_gw.Text.{is_empty, lower}
use sipmedia_gw.Outcome.{Outcome, ok}
use sipmedia_gw.Manager.Throttle.{Failures, login_throttled, clear_login_failures}
use sipmedia_gw.Manager.Users.{
  Account, Db, find, get_user, count_users, written, with_login, touch_login,
}
use sipmedia_gw.Manager.Users.Epochs.{find-update_where}
use sipmedia_gw.Manager.Users.Admins.{Keyed}
use sipmedia_gw.Manager.Session.{
  Config, open_session, session_account, is_recent, verified, is_usable,
}
use sipmedia_gw.Manager.Session.Good.{session_account_iff}
use sipmedia_gw.Manager.Session.Credentials.{verified-eq, authenticate-verified}
use sipmedia_gw.Manager.Accounts.LastAdmin.{get_user-found}
use sipmedia_gw.Manager.Accounts.Passwords.{Console}
use sipmedia_gw.Manager.Login.{Attempt, login, signed, name_of, text_of}

just_now : (hours now : ℕ) → is_recent hours now (some now) ≡ true
just_now hours now = ground arith

forgets : (ip : String) (f : Failures) → lookup ip (clear_login_failures ip f) ≡ none
unfolding clear_login_failures
forgets ip f = lookup-erase ip ip f ∙ rw (eq_refl ip)

enabled_of : (a : Account) → is_usable a ≡ true → a.enabled ≡ true
enabled_of a h = ground arith

-- A table in which a sign-in at a time is written to the account, and to no other.
abbrev pub Recorded : ℕ → Account → Db → Db → Type 0
Recorded now a before after =
    (after.audit ≡ before.audit)
    × ((k : String)
        → find k after.users ≡ (
            if a.username == k
            then some (record a { last_login_at = some now })
            else find k before.users))

-- The console after a sign-in of `a`.
abbrev pub Opens : Config → String → ℕ → Account → Console → Outcome Account × Console → Type 0
Opens cfg ip now a before (answer, after) =
    ((session_account cfg now after.session after.db).0
      ≡ some (record a { last_login_at = some now }))
    × (lookup ip after.failures ≡ none)
    × Recorded now a before.db after.db

-- What a sign-in of an account needs of its table.
abbrev Facts : Config → ℕ → Db → Account → Type 0
Facts cfg now db a =
    ((session_account cfg now (open_session now a) (touch_login a.username now db)).0
      ≡ some (record a { last_login_at = some now }))
    × Recorded now a db (touch_login a.username now db)

signed-Opens :
    (cfg : Config) (o : Option Account) (ip : String) (mono now : ℕ) (f : Failures) (c : Console)
    (a : Account)
    → (o ≡ some a → Facts cfg now c.db a)
    → (signed cfg (ok (o, c.db)) ip mono now f c).0 ≡ ok a
    → Opens cfg ip now a c (signed cfg (ok (o, c.db)) ip mono now f c)
signed-Opens cfg none ip mono now f c a good h = cc h
signed-Opens cfg (some b) ip mono now f c a good h =
    let same : b ≡ a = cc h in
    let (stands, recorded) = subst (Facts cfg now c.db) (sym same) (good (ap some same)) in
    subst (λ x. Opens cfg ip now x c (signed cfg (ok (some b, c.db)) ip mono now f c)) same
      (stands, forgets ip f, recorded)

touch_login-Recorded :
    (now : ℕ) (a : Account) (db : Db)
    → find a.username db.users ≡ some a
    → lower a.username ≡ a.username
    → Recorded now a db (touch_login a.username now db)
unfolding touch_login
touch_login-Recorded now a db held low = (
  refl,
  λ k.
      find-update_where (with_login now) (lower a.username) k db.users (λ b. refl)
      ∙ ap
          (λ (name : String).
            if name == k then written (with_login now) (find k db.users) else find k db.users)
          low
      ∙ at_name k,
)
  where
    at_name :
        (k : String)
        → (if a.username == k then written (with_login now) (find k db.users) else find k db.users)
          ≡ (if a.username == k
              then some (record a { last_login_at = some now })
              else find k db.users)
    at_name k = elim (Bool-cases (a.username == k)) [
      | inl e ↦
          let same = (eq_iff a.username k).0 e in
          rw e (ap (written (with_login now)) (subst (λ n. find n db.users ≡ some a) same held))
      | inr e ↦ rw e refl
    ]

opened-Facts :
    (cfg : Config) (p name : String) (now : ℕ) (db : Db) (a : Account)
    → Keyed db.users
    → is_empty a.username ≡ false
    → verified cfg p (get_user name db) ≡ some a
    → Facts cfg now db a
unfolding get_user
opened-Facts cfg p name now db a keyed named h =
    let (found, usable, checked) = verified-eq cfg p (get_user name db) a h in
    let (held, low) = get_user-found name a db keyed found in
    let recorded = touch_login-Recorded now a db held low in
    let here =
      recorded.1 a.username ∙ if_true (a.username == a.username) _ _ (eq_refl a.username) in
    (
      (session_account_iff cfg now (open_session now a) (touch_login a.username now db) a.username
            (record a { last_login_at = some now }) refl named).1
          (
            just_now cfg.session_hours now,
            subst
                (λ k.
                  find k (touch_login a.username now db).users
                  ≡ some (record a { last_login_at = some now }))
                (sym low) here,
            enabled_of a usable,
            refl,
          ),
      recorded,
    )

-- On a table that holds accounts, their names apart and in lower case, a sign-in that answers with
-- an account whose name is not empty has opened a session that stands for it, has forgotten the
-- failures of the address, and has written the time of the sign-in to the account's row, and
-- nothing else to the table.
pub login-Opens :
    (cfg : Config) (salt : String) (attempt : Attempt) (ip : String) (mono now : ℕ) (c : Console)
    (a : Account)
    → Keyed c.db.users
    → eqb (count_users c.db.users) 0 ≡ false
    → is_empty a.username ≡ false
    → (login cfg salt attempt ip mono now c).0 ≡ ok a
    → Opens cfg ip now a c (login cfg salt attempt ip mono now c)
unfolding login
login-Opens cfg salt attempt ip mono now c a keyed some_users named h =
    let locked = (login_throttled ip mono c.failures).0 in
    let f = (login_throttled ip mono c.failures).1 in
    let o = verified cfg (text_of attempt.password) (get_user (name_of attempt.username) c.db) in
    let first : Outcome Account × Console → Outcome Account = λ r. r.0 in
    elim (Bool-cases locked) [
      | inl e ↦ cc (sym (ap first (if_true locked _ _ e)) ∙ h)
      | inr e ↦ elim (Bool-cases (not attempt.is_json)) [
        | inl g ↦
            cc (sym (ap first (if_false locked _ _ e ∙ if_true (not attempt.is_json) _ _ g)) ∙ h)
        | inr g ↦
            let run : login cfg salt attempt ip mono now c
                ≡ signed cfg (ok (o, c.db)) ip mono now f c =
              if_false locked _ _ e
              ∙ if_false (not attempt.is_json) _ _ g
              ∙ ap (λ r. signed cfg r ip mono now f c)
                  (authenticate-verified cfg salt (name_of attempt.username)
                    (text_of attempt.password) c.db some_users) in
            subst (Opens cfg ip now a c) (sym run) (
              signed-Opens cfg o ip mono now f c a
                (opened-Facts cfg (text_of attempt.password) (name_of attempt.username) now c.db a
                  keyed named)
                (sym (ap first run) ∙ h))
      ]
    ]
