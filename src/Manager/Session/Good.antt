-- ===== src/Manager/Session/Good.antt =====
-- manager/auth.py: when a session is good, and what becomes of it as the table changes.
use sipmedia_gw.Prelude.{
  ℕ, ◌≡◌, ◌↔◌, refl, ap, ◌∙◌, sym, subst, arith, String, Bool, true, false, ◌&&◌, Option, none,
  some, List, ◌∷◌, if◌then◌else◌, Bool-cases, inl, inr, All, eqb, eqb→eq,
}
use sipmedia_gw.Text.{lower, is_empty}
use sipmedia_gw.Manager.Users.{Account, Db, find, get_user}
use sipmedia_gw.Manager.Users.Epochs.{Write, apply, apply_all, ends, creates, Past, Reached}
use sipmedia_gw.Manager.Users.Ended.{apply-ends, apply_all-Past}
use sipmedia_gw.Manager.Session.{
  Config, Session, current, kept_or_cleared, session_of, is_recent, open_session, session_account,
}

current-eq :
    (epoch : Option ℕ) (o : Option Account) (a : Account)
    → current epoch o ≡ some a
    → (o ≡ some a) × (a.enabled ≡ true) × (epoch ≡ some a.session_epoch)
current-eq epoch none a h = cc h
current-eq none (some b) a h = ground arith
current-eq (some n) (some b) a h = elim (Bool-cases (b.enabled && eqb b.session_epoch n)) [
  | inr e ↦ cc (rw e at h)
  | inl e ↦
      let same : b ≡ a = cc (rw e at h) in
      subst (λ c. (some b ≡ some c) × (c.enabled ≡ true) × (some n ≡ some c.session_epoch)) same
        (
          refl,
          and_left b.enabled _ e,
          ap some (sym (eqb→eq b.session_epoch n (and_right b.enabled _ e))),
        )
]
  where
    and_left : (b c : Bool) → (b && c) ≡ true → b ≡ true
    and_left b c h = ground arith

    and_right : (b c : Bool) → (b && c) ≡ true → c ≡ true
    and_right b c h = ground arith

kept_or_cleared_0 : (o : Option Account) (s : Session) → (kept_or_cleared o s).0 ≡ o
kept_or_cleared_0 none s = refl
kept_or_cleared_0 (some a) s = refl

session_found :
    (cfg : Config) (now : ℕ) (s : Session) (db : Db) (name : String)
    → s.user ≡ some name
    → is_empty name ≡ false
    → (session_account cfg now s db).0
      ≡ (if is_recent cfg.session_hours now s.at then current s.epoch (get_user name db) else none)
unfolding session_account
session_found cfg now s db name u e =
    ap (λ o. (session_of cfg.session_hours now s o db).0) u
    ∙ elim (Bool-cases (is_recent cfg.session_hours now s.at)) [
      | inl f ↦ rw (session_of, e, f) (kept_or_cleared_0 (current s.epoch (get_user name db)) s)
      | inr f ↦ rw (session_of, e, f) refl
    ]

current-some :
    (epoch : Option ℕ) (a : Account)
    → a.enabled ≡ true
    → epoch ≡ some a.session_epoch
    → current epoch (some a) ≡ some a
current-some none a e h = cc h
current-some (some n) a e h = ground arith

-- What makes the session of a name stand for an account.
abbrev pub Good : Config → ℕ → Session → Db → String → Account → Type 0
Good cfg now s db name a =
    (is_recent cfg.session_hours now s.at ≡ true)
    × (get_user name db ≡ some a)
    × (a.enabled ≡ true)
    × (s.epoch ≡ some a.session_epoch)

-- The session of a name that is not empty stands for an account exactly when it is not older than
-- the limit, the account is the one that the table holds under the name, it is enabled, and its
-- epoch is the session's.
pub session_account_iff :
    (cfg : Config) (now : ℕ) (s : Session) (db : Db) (name : String) (a : Account)
    → s.user ≡ some name
    → is_empty name ≡ false
    → ((session_account cfg now s db).0 ≡ some a) ↔ Good cfg now s db name a
session_account_iff cfg now s db name a u e = (to, from)
  where
    to : (session_account cfg now s db).0 ≡ some a → Good cfg now s db name a
    to h = elim (Bool-cases (is_recent cfg.session_hours now s.at)) [
      | inl f ↦
          let found : current s.epoch (get_user name db) ≡ some a =
            rw f at (sym (session_found cfg now s db name u e) ∙ h) in
          let (held, on, n) = current-eq s.epoch (get_user name db) a found in (f, held, on, n)
      | inr f ↦ cc (rw f at (sym (session_found cfg now s db name u e) ∙ h))
    ]

    from : Good cfg now s db name a → (session_account cfg now s db).0 ≡ some a
    from (f, g, on, n) =
        session_found cfg now s db name u e
        ∙ rw f (ap (current s.epoch) g ∙ current-some s.epoch a on n)

Past-refused : (n : ℕ) (o : Option Account) → Past n o → current (some n) o ≡ none
Past-refused n none h = refl
Past-refused n (some a) h = ground arith

Past-session :
    (cfg : Config) (now : ℕ) (s : Session) (db : Db) (name : String) (n : ℕ)
    → s.user ≡ some name
    → is_empty name ≡ false
    → s.epoch ≡ some n
    → Past n (get_user name db)
    → (session_account cfg now s db).0 ≡ none
Past-session cfg now s db name n u e f h =
    session_found cfg now s db name u e ∙ elim (Bool-cases (is_recent cfg.session_hours now s.at)) [
      | inl g ↦
          rw g (ap (λ m. current m (get_user name db)) f ∙ Past-refused n (get_user name db) h)
      | inr g ↦ rw g
    ]

Reached-self : (a : Account) (o : Option Account) → o ≡ some a → Reached a.session_epoch o
Reached-self a none h = _
Reached-self a (some b) h =
    let same : b ≡ a = cc h in
    let later : b.session_epoch ≡ a.session_epoch = ap (λ c. c.session_epoch) same in
    omega (arith, later)

-- A session opened for the account that the table holds under its name, not empty and in lower
-- case, is refused after a write that ends the account's sessions (a new password, another role or
-- state, a sign-out, a deletion), at any time and after any further writes, as long as none of
-- them creates an account of that name.
pub session_account-ends :
    (cfg : Config) (opened now : ℕ) (a : Account) (w : Write) (ws : List Write) (db : Db)
    → is_empty a.username ≡ false
    → lower a.username ≡ a.username
    → find a.username db.users ≡ some a
    → ends w a.username ≡ true
    → All (λ v. creates v a.username ≡ false) ws
    → (session_account cfg now (open_session opened a) (apply_all cfg.spelled (w ∷ ws) db)).0 ≡ none
unfolding apply_all get_user
session_account-ends cfg opened now a w ws db e low held ending others =
    Past-session cfg now (open_session opened a) _ a.username a.session_epoch refl e refl (
      subst
        (λ k.
          Past a.session_epoch (find k (apply_all cfg.spelled ws (apply cfg.spelled w db)).users))
        (sym low)
        (apply_all-Past a.session_epoch a.username cfg.spelled ws (apply cfg.spelled w db) others
          (apply-ends a.session_epoch a.username cfg.spelled w db ending (Reached-self a _ held))))
