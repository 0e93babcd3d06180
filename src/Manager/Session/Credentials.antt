-- ===== src/Manager/Session/Credentials.antt =====
-- manager/auth.py: whose credentials sign in.
use sipmedia_gw.Prelude.{
  ◌≡◌, ◌↔◌, refl, ap, ◌∙◌, sym, subst, arith, String, Bool, true, false, ◌&&◌, Option, none, some,
  Bool-cases, inl, inr, eqb,
}
use sipmedia_gw.Outcome.{Outcome, ok, refuse, crash}
use sipmedia_gw.Manager.Users.{Account, Db, get_user, count_users}
use sipmedia_gw.Manager.Session.{
  Config, authenticate, ensure_bootstrap, verified, is_usable, check_password,
}

pub verified-eq :
    (cfg : Config) (p : String) (o : Option Account) (a : Account)
    → verified cfg p o ≡ some a
    → (o ≡ some a) × (is_usable a ≡ true) × (check_password cfg p a.password_hash ≡ true)
verified-eq cfg p none a h = cc h
verified-eq cfg p (some b) a h =
    elim (Bool-cases (is_usable b && check_password cfg p b.password_hash)) [
      | inr e ↦ cc (rw e at h)
      | inl e ↦
          let same : b ≡ a = cc (rw e at h) in
          subst
            (λ c.
              (some b ≡ some c)
              × (is_usable c ≡ true)
              × (check_password cfg p c.password_hash ≡ true))
            same (refl, both_left (is_usable b) _ e, both_right (is_usable b) _ e)
    ]
  where
    both_left : (b c : Bool) → (b && c) ≡ true → b ≡ true
    both_left b c h = ground arith

    both_right : (b c : Bool) → (b && c) ≡ true → c ≡ true
    both_right b c h = ground arith

verified-some :
    (cfg : Config) (p : String) (a : Account)
    → is_usable a ≡ true
    → check_password cfg p a.password_hash ≡ true
    → verified cfg p (some a) ≡ some a
verified-some cfg p a h k = rw (h, k)

pub authenticate-verified :
    (cfg : Config) (salt username p : String) (db : Db)
    → eqb (count_users db.users) 0 ≡ false
    → authenticate cfg salt username p db ≡ ok (verified cfg p (get_user username db), db)
unfolding authenticate ensure_bootstrap
authenticate-verified cfg salt username p db some_users = rw (ensure_bootstrap, some_users) refl

-- Where the table holds an account already, credentials sign an account in exactly when the table
-- holds it under the name, it is enabled and local, and the password is the one of its hash; the
-- table is left as it was.
pub authenticate_iff :
    (cfg : Config) (salt username p : String) (db : Db) (a : Account)
    → eqb (count_users db.users) 0 ≡ false
    → (authenticate cfg salt username p db ≡ ok (some a, db)) ↔ (
        (get_user username db ≡ some a)
        × (is_usable a ≡ true)
        × (check_password cfg p a.password_hash ≡ true))
authenticate_iff cfg salt username p db a some_users = (to, from)
  where
    run : authenticate cfg salt username p db ≡ ok (verified cfg p (get_user username db), db)
    run = authenticate-verified cfg salt username p db some_users

    value : Outcome (Option Account × Db) → Option Account
    value (ok r) = r.0
    value (refuse c d) = none
    value crash = none

    to :
        authenticate cfg salt username p db ≡ ok (some a, db)
        → (get_user username db ≡ some a)
          × (is_usable a ≡ true)
          × (check_password cfg p a.password_hash ≡ true)
    to h = verified-eq cfg p (get_user username db) a (ap value (sym run ∙ h))

    from :
        (get_user username db ≡ some a)
          × (is_usable a ≡ true)
          × (check_password cfg p a.password_hash ≡ true)
        → authenticate cfg salt username p db ≡ ok (some a, db)
    from (h, u, c) = run ∙ ap (λ o. ok (o, db)) (ap (verified cfg p) h ∙ verified-some cfg p a u c)
