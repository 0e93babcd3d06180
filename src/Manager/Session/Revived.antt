-- ===== src/Manager/Session/Revived.antt =====
-- manager/auth.py with manager/users.py: the sessions of a deleted account whose name is taken again.
use sipmedia_gw.Prelude.{
  ℕ, ◌≡◌, refl, ap, ◌∙◌, subst, arith, String, ◌==◌, eq_refl, Bool, true, false, not, ◌&&◌, Option,
  none, some, List, [], ◌∷◌, ◌++◌, Bool-cases, inl, inr,
}
use sipmedia_gw.Text.{lower, is_empty}
use sipmedia_gw.Manager.Users.{
  Account, Audit, Db, find, get_user, is_valid, is_set_to, insert_user, update_where, write_update,
  new_account, with_password, set_password, delete_user, written,
}
use sipmedia_gw.Manager.Users.Epochs.{find-update_where}
use sipmedia_gw.Manager.Session.{Config, open_session, is_recent, session_account}
use sipmedia_gw.Manager.Session.Good.{session_account_iff}

find-append_last :
    (us : List Account) (b : Account)
    → find b.username us ≡ none
    → find b.username (us ++ (b ∷ [])) ≡ some b
unfolding find
find-append_last [] b h = rw (eq_refl b.username)
find-append_last (a ∷ us) b h = elim (Bool-cases (a.username == b.username)) [
  | inl e ↦ cc (rw e at h)
  | inr e ↦ rw e (find-append_last us b (rw e at h))
]

not_set {ℓ} :
    {A : Type ℓ} (o : Option A) (b c : Bool) → (b && (c && not (is_set_to o))) ≡ true → o ≡ none
not_set none b c h = refl
not_set (some a) b c h = ground arith

-- A row that the table takes is found under its name.
pub find-insert_user :
    (spelled : String → Bool) (b : Account) (line : Audit) (db after : Db)
    → insert_user spelled b line db ≡ some after
    → find b.username after.users ≡ some b
unfolding insert_user
find-insert_user spelled b line db after h =
    elim (Bool-cases
      (spelled b.username && (is_valid b && not (is_set_to (find b.username db.users))))) [
        | inr e ↦ cc (rw e at h)
        | inl e ↦
            let same : db.users ++ (b ∷ []) ≡ after.users = ap (or_empty db.users) (rw e at h) in
            subst (λ us. find b.username us ≡ some b) same
              (find-append_last db.users b (not_set (find b.username db.users) _ (is_valid b) e))
      ]
  where
    or_empty : List Account → Option Db → List Account
    or_empty us none = us
    or_empty us (some d) = d.users

-- A session that is still recent and was opened for an account at epoch 1, whose name is not empty
-- and in lower case, stands for the account that is created under the same name after its
-- deletion, once that one has set its password.
pub deleted_session_revived :
    (cfg : Config) (opened now : ℕ) (a : Account) (role hash hash' : String)
    (first last : Option String) (deletion : Option Audit) (creation : Audit)
    (change : Option Audit) (db after : Db)
    → is_empty a.username ≡ false
    → lower a.username ≡ a.username
    → a.session_epoch ≡ 1
    → is_recent cfg.session_hours now (some opened) ≡ true
    → insert_user cfg.spelled
        (new_account a.username role "local" (some hash) true first last)
        creation
        (delete_user a.username deletion db).1
      ≡ some after
    → (session_account cfg now
        (open_session opened a)
        (set_password a.username hash' false change after).1).0
      ≡ some (
          with_password hash' false
            (new_account a.username role "local" (some hash) true first last))
unfolding set_password write_update get_user
deleted_session_revived cfg opened now a role hash hash' first last deletion creation change db
      after e low one recent made =
    let b = new_account a.username role "local" (some hash) true first last in
    let held : find (lower a.username) after.users ≡ some b =
      find-insert_user cfg.spelled b creation _ after made in
    let changed : find (lower a.username)
          (update_where (with_password hash' false) (lower a.username) after.users)
        ≡ some (with_password hash' false b) =
      find-update_where (with_password hash' false) (lower a.username) (lower a.username)
        after.users (λ c. refl)
      ∙ rw (eq_refl (lower a.username)) (ap (written (with_password hash' false)) held) in
    (session_account_iff cfg now (open_session opened a) _ a.username (with_password hash' false b)
        refl e).1
      (recent, changed, refl, ap some one)
