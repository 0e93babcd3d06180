-- ===== src/Manager/Accounts/Spared.antt =====
-- manager/api/users.py: the checks on the last administrator.
use sipmedia_gw.Prelude.{
  if_true, ℕ, ◌≤◌, ◌≡◌, ◌⊎◌, refl, ◌∙◌, sym, arith, String, ◌==◌, Bool, true, false, not, Option,
  none, some, Bool-cases, inl, inr,
}
use sipmedia_gw.Outcome.{ok, >>=-eq-ok}
use sipmedia_gw.Manager.Users.{Account, Db, Changes, with_changes}
use sipmedia_gw.Manager.Users.Admins.{admins_in}
use sipmedia_gw.Manager.Accounts.{
  Patch, last_admin, unless, is_role, named, promoted, disabled_as, enabled_as, checked,
}

pub unless-ok :
    (b : Bool) (code : ℕ) (detail : String) (x : Bool) → unless b code detail ≡ ok x → b ≡ false
unless-ok true code detail x h = cc h
unless-ok false code detail x h = refl

-- A role that is changed is one that the last administrator does not have.
promoted-ok :
    (role r : Option String) (a : Account) (user : String) (db : Db)
    → promoted role a user db ≡ ok r
    → (r ≡ none) ⊎ (last_admin a db ≡ false)
unfolding promoted
promoted-ok none r a user db h = inl (cc h)
promoted-ok (some role) r a user db h = elim (Bool-cases (role == a.role)) [
  | inl e ↦ inl (cc (rw e at h))
  | inr e ↦
      let (x, e₁, h₁) = >>=-eq-ok (unless (not (is_role role)) _ _) _ (rw e at h) in
      let (y, e₂, h₂) = >>=-eq-ok (unless (a.username == user) _ _) _ h₁ in
      let (z, e₃, h₃) = >>=-eq-ok (unless (last_admin a db) _ _) _ h₂ in
      inr (unless-ok (last_admin a db) _ _ z e₃)
]

disabled_as-ok :
    (r : Option Bool) (a : Account) (user : String) (db : Db)
    → disabled_as a user db ≡ ok r
    → last_admin a db ≡ false
unfolding disabled_as
disabled_as-ok r a user db h =
    let (y, e₂, h₂) = >>=-eq-ok (unless (a.username == user) _ _) _ h in
    let (z, e₃, h₃) = >>=-eq-ok (unless (last_admin a db) _ _) _ h₂ in
    unless-ok (last_admin a db) _ _ z e₃

enabled_as-ok :
    (state r : Option Bool) (a : Account) (user : String) (db : Db)
    → enabled_as state a user db ≡ ok r
    → (r ≡ none) ⊎ ((r ≡ some true) ⊎ (last_admin a db ≡ false))
unfolding enabled_as
enabled_as-ok none r a user db h = inl (cc h)
enabled_as-ok (some true) r a user db h = elim (Bool-cases a.enabled) [
  | inl e ↦ inl (cc (rw e at h))
  | inr e ↦ inr (inl (cc (rw e at h)))
]
enabled_as-ok (some false) r a user db h = elim (Bool-cases a.enabled) [
  | inr e ↦ inl (cc (rw e at h))
  | inl e ↦ inr (inr (disabled_as-ok r a user db (sym (if_true a.enabled _ _ e) ∙ h)))
]

-- Either another administrator is left, or the changes take nothing from this one.
unfoldable pub Spared : Account → Db → Changes → Type 0
Spared a db c = (last_admin a db ≡ false) ⊎ (admins_in a ≤ admins_in (with_changes c a))

kept_admin :
    (a : Account) (c : Changes)
    → c.role ≡ none
    → c.enabled ≡ none
    → admins_in a ≤ admins_in (with_changes c a)
unfolding admins_in
kept_admin a c e f = rw (e, f) (omega arith)

enabled_admin :
    (a : Account) (c : Changes)
    → c.role ≡ none
    → c.enabled ≡ some true
    → admins_in a ≤ admins_in (with_changes c a)
unfolding admins_in
enabled_admin a c e f = rw (e, f) (ground arith)

pub checked-Spared :
    (body : Patch) (a : Account) (user : String) (db : Db) (c : Changes)
    → checked body a user db ≡ ok c
    → Spared a db c
unfolding checked Spared
checked-Spared body a user db c h =
    let (name, e₁, h₁) = >>=-eq-ok (named body a) _ h in
    let (role, e₂, h₂) = >>=-eq-ok (promoted body.new_role a user db) _ h₁ in
    let (state, e₃, h₃) = >>=-eq-ok (enabled_as body.new_enabled a user db) _ h₂ in
    let same_role : role ≡ c.role = cc h₃ in
    let same_state : state ≡ c.enabled = cc h₃ in
    elim (promoted-ok body.new_role role a user db e₂) [
      | inr spare ↦ inl spare
      | inl r ↦ elim (enabled_as-ok body.new_enabled state a user db e₃) [
        | inl s ↦ inr (kept_admin a c (sym same_role ∙ r) (sym same_state ∙ s))
        | inr (inl s) ↦ inr (enabled_admin a c (sym same_role ∙ r) (sym same_state ∙ s))
        | inr (inr spare) ↦ inl spare
      ]
    ]
