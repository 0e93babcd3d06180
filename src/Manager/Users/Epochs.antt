-- ===== src/Manager/Users/Epochs.antt =====
-- manager/users.py: what each write does to the row found under a name, and to its epoch.
use sipmedia_gw.Prelude.{
  ℕ, ◌+◌, ◌<◌, ◌≡◌, ap, ◌∙◌, arith, String, ◌==◌, eq_iff, Bool, true, false, ◌||◌, ◌&&◌, Option,
  none, some, List, [], ◌∷◌, ◌++◌, if◌then◌else◌, Bool-cases, inl, inr,
}
use sipmedia_gw.Text.{lower}
use sipmedia_gw.Manager.Users.{
  Account, Audit, Db, find, update_where, delete_where, written, set_password, Changes,
  update_account, bump_epoch, touch_login, delete_user, insert_user, is_set_to,
}

same_key : (u name k : String) → (u == name) ≡ true → (name == k) ≡ (u == k)
same_key u name k h = ground (arith, eq_iff u name, eq_iff u k, eq_iff name k)

other_key : (u name k : String) → (u == name) ≡ false → (u == k) ≡ true → (name == k) ≡ false
other_key u name k h g = ground (arith, eq_iff u name, eq_iff u k, eq_iff name k)

pub find-update_where :
    (f : Account → Account) (name k : String) (us : List Account)
    → ((a : Account) → (f a).username ≡ a.username)
    → find k (update_where f name us) ≡ (if name == k then written f (find k us) else find k us)
unfolding find update_where
find-update_where f name k [] keeps = ground arith
find-update_where f name k (a ∷ others) keeps =
    let rest = find-update_where f name k others keeps in
    let kept = ap (λ u. u == k) (keeps a) in
    elim (Bool-cases (a.username == name)) [
      | inl e ↦ elim (Bool-cases (a.username == k)) [
        | inl g ↦ rw (e, kept ∙ g, g, same_key a.username name k e ∙ g)
        | inr g ↦
            rw (e, kept ∙ g, g, same_key a.username name k e ∙ g)
              (rest ∙ rw (same_key a.username name k e ∙ g))
      ]
      | inr e ↦ elim (Bool-cases (a.username == k)) [
        | inl g ↦ rw (e, g, other_key a.username name k e g)
        | inr g ↦ rw (e, g) rest
      ]
    ]

pub find-delete_where :
    (name k : String) (us : List Account)
    → find k (delete_where name us) ≡ (if name == k then none else find k us)
unfolding find delete_where
find-delete_where name k [] = ground arith
find-delete_where name k (a ∷ others) = ground (
  arith,
  eq_iff a.username name,
  eq_iff a.username k,
  eq_iff name k,
  find-delete_where name k others,
)

pub find-append :
    (k : String) (us : List Account) (a : Account)
    → (a.username == k) ≡ false
    → find k (us ++ (a ∷ [])) ≡ find k us
unfolding find
find-append k [] a h = rw h
find-append k (b ∷ us) a h = ground (arith, find-append k us a h)

-- A write to the table.
pub data Write : Type 0 where
  password : String → String → Bool → Option Audit → Write
  changes : String → Changes → Option Audit → Write
  sign_out : String → Write
  sign_in : String → ℕ → Write
  deletion : String → Option Audit → Write
  creation : Account → Audit → Write

abbrev or_unchanged : Option Db → Db → Db
or_unchanged none db = db
or_unchanged (some after) db = after

-- The table after it, a refused row leaving it as it was.
unfoldable pub apply : (String → Bool) → Write → Db → Db
unfolding set_password update_account touch_login bump_epoch delete_user insert_user
apply spelled (password name hash must line) db = (set_password name hash must line db).1
apply spelled (changes name c line) db = (update_account name c line db).1
apply spelled (sign_out name) db = bump_epoch name db
apply spelled (sign_in name now) db = touch_login name now db
apply spelled (deletion name line) db = (delete_user name line db).1
apply spelled (creation a line) db = or_unchanged (insert_user spelled a line db) db

unfoldable pub apply_all : (String → Bool) → List Write → Db → Db
unfolding apply
apply_all spelled [] db = db
apply_all spelled (w ∷ ws) db = apply_all spelled ws (apply spelled w db)

-- The writes that end the sessions of an account: a password, a role or a state, a sign-out, a
-- deletion.
unfoldable pub ends : Write → String → Bool
unfolding lower
ends (password name hash must line) k = lower name == k
ends (changes name c line) k = (lower name == k) && (is_set_to c.role || is_set_to c.enabled)
ends (sign_out name) k = lower name == k
ends (sign_in name now) k = false
ends (deletion name line) k = lower name == k
ends (creation a line) k = false

abbrev pub creates : Write → String → Bool
creates (creation a line) k = a.username == k
creates w k = false

-- No row, or one of a later epoch than `n`.
abbrev pub Past : ℕ → Option Account → Type 0
Past n none = Unit
Past n (some a) = n < a.session_epoch

-- No row, or one of the epoch `n` or a later one.
abbrev pub Reached : ℕ → Option Account → Type 0
Reached n none = Unit
Reached n (some a) = n < a.session_epoch + 1
