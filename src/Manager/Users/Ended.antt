-- ===== src/Manager/Users/Ended.antt =====
-- manager/users.py: the epoch of a name's row over further writes.
use sipmedia_gw.Prelude.{
  if_true, if_false, ℕ, ◌+◌, ◌≤◌, ◌≡◌, refl, not, sym, subst, arith, String, ◌==◌, Bool, true,
  false, ◌||◌, ◌&&◌, Option, none, some, List, [], ◌∷◌, Bool-cases, inl, inr, All,
}
use sipmedia_gw.Text.{lower}
use sipmedia_gw.Manager.Users.{
  Account, Audit, Db, find, update_where, delete_where, written, write_update, with_password,
  set_password, Changes, with_changes, update_account, with_next_epoch, bump_epoch, with_login,
  touch_login, delete_user, insert_user, is_set_to, is_valid,
}
use sipmedia_gw.Manager.Users.Epochs.{
  find-update_where, find-delete_where, find-append, Write, password, changes, sign_out, sign_in,
  deletion, creation, apply, apply_all, ends, creates, Past, Reached,
}

module _ (n : ℕ) (k : String) where
  written-Past :
      (f : Account → Account) (o : Option Account)
      → ((a : Account) → a.session_epoch ≤ (f a).session_epoch)
      → Past n o
      → Past n (written f o)
  written-Past f none grows h = _
  written-Past f (some a) grows h = omega (arith, h, grows a)

  update_where-Past :
      (f : Account → Account) (name : String) (us : List Account)
      → ((a : Account) → (f a).username ≡ a.username)
      → ((a : Account) → a.session_epoch ≤ (f a).session_epoch)
      → Past n (find k us)
      → Past n (find k (update_where f name us))
  update_where-Past f name us keeps grows h = elim (Bool-cases (name == k)) [
    | inl e ↦ rw (find-update_where f name k us keeps, e) (written-Past f (find k us) grows h)
    | inr e ↦ rw (find-update_where f name k us keeps, e) h
  ]

  written-next :
      (f : Account → Account) (o : Option Account)
      → ((a : Account) → (f a).session_epoch ≡ a.session_epoch + 1)
      → Reached n o
      → Past n (written f o)
  written-next f none next h = _
  written-next f (some a) next h = omega (arith, h, next a)

  update_where-next :
      (f : Account → Account) (name : String) (us : List Account)
      → ((a : Account) → (f a).username ≡ a.username)
      → ((a : Account) → (f a).session_epoch ≡ a.session_epoch + 1)
      → (name == k) ≡ true
      → Reached n (find k us)
      → Past n (find k (update_where f name us))
  update_where-next f name us keeps next e h =
      rw (find-update_where f name k us keeps, e) (written-next f (find k us) next h)

  delete_where-Past :
      (name : String) (us : List Account)
      → Past n (find k us)
      → Past n (find k (delete_where name us))
  delete_where-Past name us h = elim (Bool-cases (name == k)) [
    | inl e ↦ rw (find-delete_where name k us, e) _
    | inr e ↦ rw (find-delete_where name k us, e) h
  ]

  insert_user-Past :
      (spelled : String → Bool) (a : Account) (line : Audit) (db : Db)
      → (a.username == k) ≡ false
      → Past n (find k db.users)
      → Past n (find k (apply spelled (creation a line) db).users)
  unfolding apply insert_user
  insert_user-Past spelled a line db apart h =
      elim (Bool-cases
        (spelled a.username && (is_valid a && not (is_set_to (find a.username db.users))))) [
          | inl e ↦ rw (e, find-append k db.users a apart) h
          | inr e ↦ rw e h
        ]

  changes_grow : (c : Changes) (a : Account) → a.session_epoch ≤ (with_changes c a).session_epoch
  changes_grow c a = ground arith

  changes_next :
      (c : Changes) (a : Account)
      → (is_set_to c.role || is_set_to c.enabled) ≡ true
      → (with_changes c a).session_epoch ≡ a.session_epoch + 1
  changes_next c a h = rw h

  changes-Past :
      (name : String) (c : Changes) (line : Option Audit) (db : Db)
      → Past n (find k db.users)
      → Past n (find k (update_account name c line db).1.users)
  unfolding update_account write_update
  changes-Past name c line db h =
      elim (Bool-cases (is_set_to c.name || (is_set_to c.role || is_set_to c.enabled))) [
        | inl e ↦
            subst (λ (r : Option Account × Db). Past n (find k r.1.users)) (sym (if_true _ _ _ e))
              (update_where-Past (with_changes c) (lower name) db.users (λ a. refl) (changes_grow c)
                h)
        | inr e ↦
            subst (λ (r : Option Account × Db). Past n (find k r.1.users)) (sym (if_false _ _ _ e))
              h
      ]

  -- A write that makes no row of the name leaves it past the epoch.
  pub apply-Past :
      (spelled : String → Bool) (w : Write) (db : Db)
      → creates w k ≡ false
      → Past n (find k db.users)
      → Past n (find k (apply spelled w db).users)
  unfolding apply set_password write_update bump_epoch touch_login delete_user
  apply-Past spelled (password name hash must line) db e h =
      update_where-Past (with_password hash must) (lower name) db.users (λ a. refl)
        (λ a. omega arith) h
  apply-Past spelled (changes name c line) db e h = changes-Past name c line db h
  apply-Past spelled (sign_out name) db e h =
      update_where-Past with_next_epoch (lower name) db.users (λ a. refl) (λ a. omega arith) h
  apply-Past spelled (sign_in name now) db e h =
      update_where-Past (with_login now) (lower name) db.users (λ a. refl) (λ a. omega arith) h
  apply-Past spelled (deletion name line) db e h = delete_where-Past (lower name) db.users h
  apply-Past spelled (creation a line) db e h = insert_user-Past spelled a line db e h

  pub apply_all-Past :
      (spelled : String → Bool) (ws : List Write) (db : Db)
      → All (λ w. creates w k ≡ false) ws
      → Past n (find k db.users)
      → Past n (find k (apply_all spelled ws db).users)
  unfolding apply_all
  apply_all-Past spelled [] db e h = h
  apply_all-Past spelled (w ∷ ws) db e h =
      apply_all-Past spelled ws (apply spelled w db) e.1 (apply-Past spelled w db e.0 h)

  and_left : (b c : Bool) → (b && c) ≡ true → b ≡ true
  and_left b c h = ground arith

  and_right : (b c : Bool) → (b && c) ≡ true → c ≡ true
  and_right b c h = ground arith

  or_right : (b c : Bool) → c ≡ true → (b || c) ≡ true
  or_right b c h = ground arith

  -- A write that ends the sessions of the name moves its row past the epoch.
  pub apply-ends :
      (spelled : String → Bool) (w : Write) (db : Db)
      → ends w k ≡ true
      → Reached n (find k db.users)
      → Past n (find k (apply spelled w db).users)
  unfolding apply ends set_password update_account write_update bump_epoch touch_login delete_user
  apply-ends spelled (password name hash must line) db e h =
      update_where-next (with_password hash must) (lower name) db.users (λ a. refl) (λ a. refl) e h
  apply-ends spelled (changes name c line) db e h =
      let moved = and_right (lower name == k) (is_set_to c.role || is_set_to c.enabled) e in
      subst (λ (r : Option Account × Db). Past n (find k r.1.users))
        (sym (if_true _ _ _ (or_right (is_set_to c.name) _ moved)))
        (update_where-next (with_changes c) (lower name) db.users (λ a. refl)
          (λ a. changes_next c a moved) (and_left (lower name == k) _ e) h)
  apply-ends spelled (sign_out name) db e h =
      update_where-next with_next_epoch (lower name) db.users (λ a. refl) (λ a. refl) e h
  apply-ends spelled (sign_in name now) db e h = cc e
  apply-ends spelled (deletion name line) db e h =
      rw (find-delete_where (lower name) k db.users, e) _
  apply-ends spelled (creation a line) db e h = cc e
