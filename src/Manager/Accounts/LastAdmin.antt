-- ===== src/Manager/Accounts/LastAdmin.antt =====
-- manager/api/users.py: the administrators over a run of requests.
use sipmedia_gw.Prelude.{
  if_true, if_false, ℕ, ◌+◌, ◌≤◌, ◌<◌, ◌≡◌, ◌⊎◌, refl, ap, ◌∙◌, sym, subst, arith, String, ◌==◌,
  Bool, false, ◌||◌, Option, none, some, List, [], ◌∷◌, Bool-cases, Option-cases, inl, inr, leb,
}
use sipmedia_gw.Text.{lower}
use sipmedia_gw.Outcome.{Outcome, ok, refuse, crash, >>=-eq-ok}
use sipmedia_gw.Manager.Users.{
  Account, Db, Changes, find, get_user, write_update, with_changes, update_account, delete_user,
  count_active_admins, is_active_admin, is_set_to,
}
use sipmedia_gw.Manager.Users.Admins.{
  Keyed, admins_in, count-update_where, count-delete_where, find-lower, find-username,
  update_where-Keyed, delete_where-Keyed,
}
use sipmedia_gw.Manager.Accounts.Spared.{unless-ok, Spared, checked-Spared}
use sipmedia_gw.Manager.Accounts.{
  Patch, target, last_admin, unless, checked, update_user, update_with, delete, delete_with,
  delete_allowed, answer, audit_of,
}

admins_in_le : (a : Account) → admins_in a ≤ 1
unfolding admins_in
admins_in_le a = ground arith

not_last :
    (a : Account) (db : Db)
    → last_admin a db ≡ false
    → (admins_in a ≡ 0) ⊎ (1 < count_active_admins db.users)
unfolding last_admin admins_in
not_last a db h = elim (Bool-cases (is_active_admin a)) [
  | inr e ↦ inl (rw e)
  | inl e ↦ inr (le_1 (count_active_admins db.users) (rw e at h))
]
  where
    le_1 : (n : ℕ) → leb n 1 ≡ false → 1 < n
    le_1 n h = ground arith

-- The arithmetic of a change of one row.
left_over :
    (n n' b b' : ℕ) → n' + b ≡ n + b' → 1 ≤ n → b ≤ 1 → ((b ≡ 0) ⊎ (1 < n)) ⊎ (b ≤ b') → 1 ≤ n'
left_over n n' b b' e pos le (inl (inl z)) = omega (arith, e, pos, z)
left_over n n' b b' e pos le (inl (inr m)) = omega (arith, e, m, le)
left_over n n' b b' e pos le (inr grows) = omega (arith, e, pos, grows)

deleted_over : (n n' b : ℕ) → n' + b ≡ n → 1 ≤ n → b ≤ 1 → (b ≡ 0) ⊎ (1 < n) → 1 ≤ n'
deleted_over n n' b e pos le (inl z) = omega (arith, e, pos, z)
deleted_over n n' b e pos le (inr m) = omega (arith, e, m, le)

answer_1 : (r : Option Account × Db) → (answer r).1 ≡ r.1
answer_1 (none, db) = refl
answer_1 (some a, db) = refl

-- The names are apart and in lower case, and an enabled administrator is left.
unfoldable pub Sound : Db → Type 0
Sound db = Keyed db.users × (1 ≤ count_active_admins db.users)

module _ (a : Account) (user : String) (db : Db) (keyed : Keyed db.users)
    (left : 1 ≤ count_active_admins db.users) where
  update_account-left :
      (c : Changes)
      → find a.username db.users ≡ some a
      → lower a.username ≡ a.username
      → Spared a db c
      → Sound (write_update (with_changes c) a.username (audit_of user "update" a.username) db).1
  unfolding write_update Spared Sound
  update_account-left c held low spared =
      let held' = subst (λ k. find k db.users ≡ some a) (sym low) held in
      let count = count-update_where (with_changes c) (lower a.username) a db.users keyed held' in
      let why : ((admins_in a ≡ 0) ⊎ (1 < count_active_admins db.users))
          ⊎ (admins_in a ≤ admins_in (with_changes c a)) =
        elim spared [ inl h ↦ inl (not_last a db h) | inr h ↦ inr h ] in
      (
        update_where-Keyed (with_changes c) (lower a.username) db.users (λ b. refl) keyed,
        left_over (count_active_admins db.users) _ (admins_in a) (admins_in (with_changes c a))
            count left (admins_in_le a) why,
      )

  update_with-left :
      (o : Outcome Changes)
      → find a.username db.users ≡ some a
      → lower a.username ≡ a.username
      → ((c : Changes) → o ≡ ok c → Spared a db c)
      → Sound (update_with o a user db).1
  unfolding update_account Sound
  update_with-left (refuse c d) held low spared = (keyed, left)
  update_with-left crash held low spared = (keyed, left)
  update_with-left (ok c) held low spared =
      elim (Bool-cases (is_set_to c.name || (is_set_to c.role || is_set_to c.enabled))) [
        | inr e ↦
            subst (λ (r : Outcome Account × Db). Sound r.1) (sym (if_false _ _ _ e)) (keyed, left)
        | inl e ↦
            subst (λ (r : Outcome Account × Db). Sound r.1) (sym (if_true _ _ _ e))
              (subst (λ (d : Db). Sound d)
                (sym (answer_1 _ ∙ ap (λ (r : Option Account × Db). r.1) (if_true _ _ _ e)))
                (update_account-left c held low (spared c refl)))
      ]

  delete_with-left :
      (o : Outcome Bool)
      → find a.username db.users ≡ some a
      → lower a.username ≡ a.username
      → ((b : Bool) → o ≡ ok b → last_admin a db ≡ false)
      → Sound (delete_with o a user db).1
  unfolding delete_user Sound
  delete_with-left (refuse c d) held low spare = (keyed, left)
  delete_with-left crash held low spare = (keyed, left)
  delete_with-left (ok b) held low spare =
      let held' = subst (λ k. find k db.users ≡ some a) (sym low) held in
      let count = count-delete_where (lower a.username) a db.users keyed held' in
      (
        delete_where-Keyed (lower a.username) db.users keyed,
        deleted_over (count_active_admins db.users) _ (admins_in a) count left (admins_in_le a)
            (not_last a db (spare b refl)),
      )

delete_allowed-ok :
    (a : Account) (user : String) (db : Db) (b : Bool)
    → delete_allowed a user db ≡ ok b
    → last_admin a db ≡ false
delete_allowed-ok a user db b h =
    let (y, e₁, h₁) = >>=-eq-ok (unless (a.username == user) _ _) _ h in
    unless-ok (last_admin a db) _ _ b h₁

pub get_user-found :
    (name : String) (a : Account) (db : Db)
    → Keyed db.users
    → get_user name db ≡ some a
    → (find a.username db.users ≡ some a) × (lower a.username ≡ a.username)
unfolding get_user
get_user-found name a db keyed h = (
  subst (λ k. find k db.users ≡ some a) (sym (find-username (lower name) a db.users h)) h,
  find-lower (lower name) a db.users keyed h,
)

update_user-Sound :
    (name : String) (body : Patch) (user : String) (db : Db)
    → Sound db
    → Sound (update_user name body user db).1
unfolding update_user target Sound
update_user-Sound name body user db (keyed, left) = elim (Option-cases (get_user name db)) [
  | inl e ↦ rw e (keyed, left)
  | inr (a, e) ↦
      let (held, low) = get_user-found name a db keyed e in
      rw e (
        update_with-left a user db keyed left (checked body a user db) held low
          (checked-Spared body a user db))
]

delete-Sound : (name user : String) (db : Db) → Sound db → Sound (delete name user db).1
unfolding delete target Sound
delete-Sound name user db (keyed, left) = elim (Option-cases (get_user name db)) [
  | inl e ↦ rw e (keyed, left)
  | inr (a, e) ↦
      let (held, low) = get_user-found name a db keyed e in
      rw e (
        delete_with-left a user db keyed left (delete_allowed a user db) held low
          (delete_allowed-ok a user db))
]

-- What administrators ask for, one request after the other.
pub data Demand : Type 0 where
  update : String → Patch → String → Demand
  removal : String → String → Demand

unfoldable pub serve : List Demand → Db → Db
unfolding update_user delete
serve [] db = db
serve (update name body user ∷ ds) db = serve ds (update_user name body user db).1
serve (removal name user ∷ ds) db = serve ds (delete name user db).1

-- Whatever updates and deletions administrators ask for, on a table whose names are apart and in
-- lower case, an enabled administrator is left if there was one.
pub serve-Sound : (ds : List Demand) (db : Db) → Sound db → Sound (serve ds db)
unfolding serve
serve-Sound [] db h = h
serve-Sound (update name body user ∷ ds) db h =
    serve-Sound ds _ (update_user-Sound name body user db h)
serve-Sound (removal name user ∷ ds) db h = serve-Sound ds _ (delete-Sound name user db h)
