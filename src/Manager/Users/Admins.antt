-- ===== src/Manager/Users/Admins.antt =====
-- manager/users.py: what a write does to the number of enabled administrators.
use sipmedia_gw.Prelude.{
  if_true, if_false, ℕ, ◌+◌, ◌≡◌, ◌⊎◌, refl, ap, ◌∙◌, sym, subst, arith, String, ◌==◌, eq_iff, true,
  false, none, some, List, [], ◌∷◌, if◌then◌else◌, Bool-cases, inl, inr,
}
use sipmedia_gw.Text.{lower}
use sipmedia_gw.Manager.Users.{
  Account, find, update_where, delete_where, count_active_admins, is_active_admin,
}
use sipmedia_gw.Manager.Users.{written}
use sipmedia_gw.Manager.Users.Epochs.{find-update_where, find-delete_where}

-- The table's constraints on the names: each admins_in is held once, and in lower case.
abbrev pub Keyed : List Account → Type 0
Keyed [] = Unit
Keyed (a ∷ others) =
    (find a.username others ≡ none) × (lower a.username ≡ a.username) × Keyed others

-- 1 for an enabled administrator, else 0.
unfoldable pub admins_in : Account → ℕ
admins_in a = if is_active_admin a then 1 else 0

update_where_absent :
    (f : Account → Account) (k : String) (us : List Account)
    → find k us ≡ none
    → update_where f k us ≡ us
unfolding find update_where
update_where_absent f k [] h = refl
update_where_absent f k (a ∷ others) h = elim (Bool-cases (a.username == k)) [
  | inl e ↦ cc (rw e at h)
  | inr e ↦ rw e (ap (λ us. a ∷ us) (update_where_absent f k others (rw e at h)))
]

delete_where_absent : (k : String) (us : List Account) → find k us ≡ none → delete_where k us ≡ us
unfolding find delete_where
delete_where_absent k [] h = refl
delete_where_absent k (a ∷ others) h = elim (Bool-cases (a.username == k)) [
  | inl e ↦ cc (rw e at h)
  | inr e ↦ rw e (ap (λ us. a ∷ us) (delete_where_absent k others (rw e at h)))
]

count_step :
    (a : Account) (us : List Account)
    → count_active_admins (a ∷ us) ≡ admins_in a + count_active_admins us
unfolding count_active_admins admins_in
count_step a us = ground arith

find-nil : (k : String) (a : Account) → find k [] ≡ some a → none ≡ some a
unfolding find
find-nil k a h = h

is_same : (u k : String) → u ≡ k → (u == k) ≡ true
is_same u k e = ground (arith, eq_iff u k)

find-cons :
    (k : String) (b a : Account) (us : List Account)
    → find k (b ∷ us) ≡ some a
    → ((b.username ≡ k) × (b ≡ a)) ⊎ (((b.username == k) ≡ false) × (find k us ≡ some a))
unfolding find
find-cons k b a us h = elim (Bool-cases (b.username == k)) [
  | inl e ↦ inl (ground (arith, e, eq_iff b.username k), cc (rw e at h))
  | inr e ↦ inr (e, rw e at h)
]

update_where-hit :
    (f : Account → Account) (k : String) (b : Account) (us : List Account)
    → b.username ≡ k
    → find b.username us ≡ none
    → update_where f k (b ∷ us) ≡ f b ∷ us
unfolding update_where
update_where-hit f k b us e h =
    rw (is_same b.username k e)
      (ap (λ us. f b ∷ us) (update_where_absent f k us (subst (λ u. find u us ≡ none) e h)))

update_where-miss :
    (f : Account → Account) (k : String) (b : Account) (us : List Account)
    → (b.username == k) ≡ false
    → update_where f k (b ∷ us) ≡ b ∷ update_where f k us
unfolding update_where
update_where-miss f k b us e = rw e

delete_where-hit :
    (k : String) (b : Account) (us : List Account)
    → b.username ≡ k
    → find b.username us ≡ none
    → delete_where k (b ∷ us) ≡ us
unfolding delete_where
delete_where-hit k b us e h =
    rw (is_same b.username k e) (delete_where_absent k us (subst (λ u. find u us ≡ none) e h))

delete_where-miss :
    (k : String) (b : Account) (us : List Account)
    → (b.username == k) ≡ false
    → delete_where k (b ∷ us) ≡ b ∷ delete_where k us
unfolding delete_where
delete_where-miss k b us e = rw e

-- A change of one row moves the number of enabled administrators by that row.
pub count-update_where :
    (f : Account → Account) (k : String) (a : Account) (us : List Account)
    → Keyed us
    → find k us ≡ some a
    → count_active_admins (update_where f k us) + admins_in a
      ≡ count_active_admins us + admins_in (f a)
count-update_where f k a [] keyed h = cc (find-nil k a h)
count-update_where f k a (b ∷ us) keyed h = elim (find-cons k b a us h) [
  | inl (e, same) ↦
      let after = ap count_active_admins (update_where-hit f k b us e keyed.0) in
      omega (
        after,
        count_step (f b) us,
        count_step b us,
        ap admins_in same,
        ap (λ c. admins_in (f c)) same,
        arith,
      )
  | inr (e, rest) ↦
      let after = ap count_active_admins (update_where-miss f k b us e) in
      let step = count-update_where f k a us keyed.2 rest in
      omega (after, count_step b us, count_step b (update_where f k us), step, arith)
]

pub count-delete_where :
    (k : String) (a : Account) (us : List Account)
    → Keyed us
    → find k us ≡ some a
    → count_active_admins (delete_where k us) + admins_in a ≡ count_active_admins us
count-delete_where k a [] keyed h = cc (find-nil k a h)
count-delete_where k a (b ∷ us) keyed h = elim (find-cons k b a us h) [
  | inl (e, same) ↦
      let after = ap count_active_admins (delete_where-hit k b us e keyed.0) in
      omega (after, count_step b us, ap admins_in same, arith)
  | inr (e, rest) ↦
      let after = ap count_active_admins (delete_where-miss k b us e) in
      let step = count-delete_where k a us keyed.2 rest in
      omega (after, count_step b us, count_step b (delete_where k us), step, arith)
]

pub find-lower :
    (k : String) (a : Account) (us : List Account)
    → Keyed us
    → find k us ≡ some a
    → lower a.username ≡ a.username
find-lower k a [] keyed h = cc (find-nil k a h)
find-lower k a (b ∷ us) keyed h = elim (find-cons k b a us h) [
  | inl (e, same) ↦ subst (λ c. lower c.username ≡ c.username) same keyed.1
  | inr (e, rest) ↦ find-lower k a us keyed.2 rest
]

pub find-username :
    (k : String) (a : Account) (us : List Account) → find k us ≡ some a → a.username ≡ k
find-username k a [] h = cc (find-nil k a h)
find-username k a (b ∷ us) h = elim (find-cons k b a us h) [
  | inl (e, same) ↦ subst (λ c. c.username ≡ k) same e
  | inr (e, rest) ↦ find-username k a us rest
]

find-update_where_absent :
    (f : Account → Account) (k u : String) (us : List Account)
    → ((a : Account) → (f a).username ≡ a.username)
    → find u us ≡ none
    → find u (update_where f k us) ≡ none
find-update_where_absent f k u us keeps h =
    find-update_where f k u us keeps ∙ elim (Bool-cases (k == u)) [
      | inl e ↦ if_true _ _ _ e ∙ ap (written f) h
      | inr e ↦ if_false _ _ _ e ∙ h
    ]

find-delete_where_absent :
    (k u : String) (us : List Account) → find u us ≡ none → find u (delete_where k us) ≡ none
find-delete_where_absent k u us h =
    find-delete_where k u us
    ∙ elim (Bool-cases (k == u)) [ inl e ↦ if_true _ _ _ e | inr e ↦ if_false _ _ _ e ∙ h ]

-- A write keeps the names apart and in lower case.
pub update_where-Keyed :
    (f : Account → Account) (k : String) (us : List Account)
    → ((a : Account) → (f a).username ≡ a.username)
    → Keyed us
    → Keyed (update_where f k us)
unfolding update_where
update_where-Keyed f k [] keeps h = _
update_where-Keyed f k (a ∷ others) keeps h =
    let apart = find-update_where_absent f k a.username others keeps h.0 in
    let rest = update_where-Keyed f k others keeps h.2 in
    elim (Bool-cases (a.username == k)) [
      | inr e ↦ subst Keyed (sym (if_false _ _ _ e)) (apart, h.1, rest)
      | inl e ↦
          let same = sym (keeps a) in
          subst Keyed (sym (if_true _ _ _ e)) (
            subst (λ u. find u (update_where f k others) ≡ none) same apart,
            subst (λ u. lower u ≡ u) same h.1,
            rest,
          )
    ]

pub delete_where-Keyed : (k : String) (us : List Account) → Keyed us → Keyed (delete_where k us)
unfolding delete_where
delete_where-Keyed k [] h = _
delete_where-Keyed k (a ∷ others) h = elim (Bool-cases (a.username == k)) [
  | inl e ↦ subst Keyed (sym (if_true _ _ _ e)) (delete_where-Keyed k others h.2)
  | inr e ↦
      subst Keyed (sym (if_false _ _ _ e))
        (find-delete_where_absent k a.username others h.0, h.1, delete_where-Keyed k others h.2)
]
