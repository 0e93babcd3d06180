-- ===== src/Manager/Units/Order.antt =====
-- manager/api/org_units.py: the rule that stands last in the order, and the greatest one.
use sipmedia_gw.Prelude.{
  ℕ, ◌≡◌, refl, sym, ◌∙◌, ap, subst, arith, Bool, true, false, Option, none, some, List, [], ◌∷◌,
  All, select, if◌then◌else◌, Bool-cases, inl, inr, if_true, if_false,
}
use sipmedia_gw.Manager.Units.{
  Rule, before_key, before, insert_rule, in_order, later, latest, or_this, last_rule,
}

key_trans :
    (p : Option ℕ) (i : ℕ) (q : Option ℕ) (j : ℕ) (r : Option ℕ) (k : ℕ)
    → before_key p i q j ≡ true
    → before_key r k q j ≡ false
    → before_key p i r k ≡ true
key_trans none i none j none k e f = ground arith
key_trans none i none j (some c) k e f = refl
key_trans none i (some b) j none k e f = cc
key_trans none i (some b) j (some c) k e f = refl
key_trans (some a) i none j r k e f = cc
key_trans (some a) i (some b) j none k e f = cc
key_trans (some a) i (some b) j (some c) k e f = ground arith

key_asym :
    (p : Option ℕ) (i : ℕ) (q : Option ℕ) (j : ℕ)
    → before_key p i q j ≡ true
    → before_key q j p i ≡ false
key_asym none i none j e = ground arith
key_asym none i (some b) j e = refl
key_asym (some a) i none j e = cc
key_asym (some a) i (some b) j e = ground arith

-- What is not before one that is before another.
pub before_trans : (x y z : Rule) → before x y ≡ true → before z y ≡ false → before x z ≡ true
unfolding before
before_trans x y z e f = key_trans x.position x.id y.position y.id z.position z.id e f

pub before_asym : (x y : Rule) → before x y ≡ true → before y x ≡ false
unfolding before
before_asym x y e = key_asym x.position x.id y.position y.id e

pub not_before_trans : (x y z : Rule) → before y x ≡ false → before z y ≡ false → before z x ≡ false
not_before_trans x y z e f = elim (Bool-cases (before z x)) [
  | inl g ↦ cc (sym (before_trans z x y g e) ∙ f)
  | inr g ↦ g
]

-- Each rule comes before none of those above it.
abbrev pub Ordered : List Rule → Type 0
Ordered [] = Unit
Ordered (r ∷ rules) = All (λ s. before s r ≡ false) rules × Ordered rules

before_irrefl : (x : Rule) → before x x ≡ false
before_irrefl x = elim (Bool-cases (before x x)) [ inl e ↦ before_asym x x e | inr e ↦ e ]

All-mono :
    {P Q : Rule → Type 0} (rules : List Rule) → ((r : Rule) → P r → Q r) → All P rules → All Q rules
All-mono [] f h = _
All-mono (r ∷ rules) f h = (f r h.0, All-mono rules f h.1)

insert-All :
    (P : Rule → Type 0) (r : Rule) (rules : List Rule)
    → P r
    → All P rules
    → All P (insert_rule r rules)
insert-All P r [] h k = (h, _)
insert-All P r (s ∷ rules) h k = elim (Bool-cases (before r s)) [
  | inl e ↦ subst (All P) (sym (if_true _ _ _ e)) (h, k)
  | inr e ↦ subst (All P) (sym (if_false _ _ _ e)) (k.0, insert-All P r rules h k.1)
]

pub in_order-All : (P : Rule → Type 0) (rules : List Rule) → All P rules → All P (in_order rules)
unfolding in_order
in_order-All P [] h = _
in_order-All P (r ∷ rules) h = insert-All P r (in_order rules) h.0 (in_order-All P rules h.1)

insert-Ordered : (r : Rule) (rules : List Rule) → Ordered rules → Ordered (insert_rule r rules)
insert-Ordered r [] h = (_, _)
insert-Ordered r (s ∷ rules) h = elim (Bool-cases (before r s)) [
  | inl e ↦
      let f = before_asym r s e in
      subst Ordered (sym (if_true _ _ _ e))
        ((f, All-mono rules (λ z g. not_before_trans r s z f g) h.0), h)
  | inr e ↦
      subst Ordered (sym (if_false _ _ _ e))
        (insert-All (λ z. before z s ≡ false) r rules e h.0, insert-Ordered r rules h.1)
]

pub in_order-Ordered : (rules : List Rule) → Ordered (in_order rules)
unfolding in_order
in_order-Ordered [] = _
in_order-Ordered (r ∷ rules) = insert-Ordered r (in_order rules) (in_order-Ordered rules)

-- The last of what passes a test, and of what passes it with one more rule.
abbrev put : Bool → Rule → Option Rule → Option Rule
put true r o = later r o
put false r o = o

abbrev behind : Bool → Rule → Option Rule → Option Rule
behind true r o = or_this r o
behind false r o = o

last-cons :
    (b : Bool) (r : Rule) (rules : List Rule)
    → last_rule (if b then r ∷ rules else rules) ≡ behind b r (last_rule rules)
last-cons true r rules = refl
last-cons false r rules = refl

latest-cons :
    (b : Bool) (r : Rule) (rules : List Rule)
    → latest (if b then r ∷ rules else rules) ≡ put b r (latest rules)
unfolding latest
latest-cons true r rules = refl
latest-cons false r rules = refl

later_put :
    (r s : Rule) (b : Bool) (o : Option Rule)
    → b ≡ before r s
    → b ≡ false
    → or_this s (later r o) ≡ later r (or_this s o)
later_put r s b none e f = sym (if_false _ _ _ (sym e ∙ f))
later_put r s b (some z) e f = elim (Bool-cases (before r z)) [
  | inl g ↦ ap (or_this s) (if_true _ _ _ g) ∙ sym (if_true _ _ _ g)
  | inr g ↦ ap (or_this s) (if_false _ _ _ g) ∙ sym (if_false _ _ _ g)
]

put-behind :
    (b c : Bool) (r s : Rule) (o : Option Rule)
    → before r s ≡ false
    → behind c s (put b r o) ≡ put b r (behind c s o)
put-behind false c r s o e = refl
put-behind true false r s o e = refl
put-behind true true r s o e = later_put r s false o (sym e) refl

later_here :
    (r : Rule) (o : Option Rule)
    → ((s : Rule) → o ≡ some s → before r s ≡ false)
    → later r o ≡ some r
later_here r none h = refl
later_here r (some s) h = if_false _ _ _ (h s refl)

module _ (p : Rule → Bool) where
  last-select :
      (r : Rule) (rules : List Rule)
      → last_rule (select p (r ∷ rules)) ≡ behind (p r) r (last_rule (select p rules))
  unfolding select
  last-select r rules = last-cons (p r) r (select p rules)

  latest-select :
      (r : Rule) (rules : List Rule)
      → latest (select p (r ∷ rules)) ≡ put (p r) r (latest (select p rules))
  unfolding select
  latest-select r rules = latest-cons (p r) r (select p rules)

  behind-Has :
      (P : Rule → Type 0) (b : Bool) (r : Rule) (o : Option Rule)
      → P r
      → ((s : Rule) → o ≡ some s → P s)
      → (s : Rule) → behind b r o ≡ some s
      → P s
  behind-Has P true r none h k s e = subst P (cc e) h
  behind-Has P true r (some t) h k s e = k s e
  behind-Has P false r o h k s e = k s e

  -- The last one is one of the list.
  last-Has :
      (P : Rule → Type 0) (rules : List Rule)
      → All P rules
      → (s : Rule) → last_rule (select p rules) ≡ some s
      → P s
  unfolding select
  last-Has P [] h s e = cc
  last-Has P (r ∷ rules) h s e =
      behind-Has P (p r) r (last_rule (select p rules)) h.0 (last-Has P rules h.1) s
        (sym (last-select r rules) ∙ e)

  later_than :
      (b : Bool) (r : Rule) (o : Option Rule)
      → ((s : Rule) → o ≡ some s → before r s ≡ true)
      → behind b r o ≡ put b r o
  later_than false r o h = refl
  later_than true r none h = refl
  later_than true r (some s) h = sym (if_true _ _ _ (h s refl))

  last-insert :
      (r : Rule) (rules : List Rule)
      → Ordered rules
      → last_rule (select p (insert_rule r rules)) ≡ put (p r) r (last_rule (select p rules))
  unfolding select
  last-insert r [] h = last-select r [] ∙ later_than (p r) r none (λ s e. cc)
  last-insert r (s ∷ rules) h = elim (Bool-cases (before r s)) [
    | inl e ↦
        ap (λ z. last_rule (select p z)) (if_true _ _ _ e)
        ∙ last-select r (s ∷ rules)
        ∙ later_than (p r) r (last_rule (select p (s ∷ rules))) (
            last-Has (λ z. before r z ≡ true) (s ∷ rules)
              (e, All-mono rules (λ z f. before_trans r s z e f) h.0))
    | inr e ↦
        ap (λ z. last_rule (select p z)) (if_false _ _ _ e)
        ∙ last-select s (insert_rule r rules)
        ∙ ap (behind (p s) s) (last-insert r rules h.1)
        ∙ put-behind (p r) (p s) r s (last_rule (select p rules)) e
        ∙ ap (put (p r) r) (sym (last-select s rules))
  ]

  -- What stands last among the rules that pass is the greatest of them.
  pub last-in_order :
      (rules : List Rule) → last_rule (select p (in_order rules)) ≡ latest (select p rules)
  unfolding in_order select latest
  last-in_order [] = refl
  last-in_order (r ∷ rules) =
      last-insert r (in_order rules) (in_order-Ordered rules)
      ∙ ap (put (p r) r) (last-in_order rules)
      ∙ sym (latest-select r rules)

  -- The greatest one is one of the list.
  pub latest-Has :
      (P : Rule → Type 0) (rules : List Rule)
      → All P rules
      → (s : Rule) → latest (select p rules) ≡ some s
      → P s
  latest-Has P rules h s e =
      last-Has P (in_order rules) (in_order-All P rules h) s (last-in_order rules ∙ e)

  -- With one more rule that passes.
  pub latest-here :
      (r : Rule) (rules : List Rule)
      → p r ≡ true
      → ((s : Rule) → latest (select p rules) ≡ some s → before r s ≡ false)
      → latest (select p (r ∷ rules)) ≡ some r
  latest-here r rules e h =
      latest-select r rules
      ∙ ap (λ b. put b r (latest (select p rules))) e
      ∙ later_here r (latest (select p rules)) h

  -- No rule that passes stands after the one that is picked.
  abbrev pub Greatest : List Rule → Option Rule → Type 0
  Greatest rules none = All (λ z. p z ≡ false) rules
  Greatest rules (some s) = (p s ≡ true) × All (λ z. p z ≡ true → before s z ≡ false) rules

  put-Greatest :
      (b : Bool) (r : Rule) (rules : List Rule) (o : Option Rule)
      → p r ≡ b
      → Greatest rules o
      → Greatest (r ∷ rules) (put b r o)
  put-Greatest false r rules none e h = (e, h)
  put-Greatest false r rules (some s) e h = (h.0, ((λ f. cc (sym f ∙ e)), h.1))
  put-Greatest true r rules none e h =
      (e, ((λ f. before_irrefl r), All-mono rules (λ z f g. cc (sym f ∙ g)) h))
  put-Greatest true r rules (some s) e h = elim (Bool-cases (before r s)) [
    | inl g ↦
        subst (Greatest (r ∷ rules)) (sym (if_true _ _ _ g)) (h.0, ((λ f. before_asym r s g), h.1))
    | inr g ↦
        subst (Greatest (r ∷ rules)) (sym (if_false _ _ _ g)) (
          e,
          ((λ f. before_irrefl r), All-mono rules (λ z k f. not_before_trans z s r (k f) g) h.1),
        )
  ]

  pub latest-Greatest : (rules : List Rule) → Greatest rules (latest (select p rules))
  unfolding select latest
  latest-Greatest [] = _
  latest-Greatest (r ∷ rules) =
      subst (Greatest (r ∷ rules)) (sym (latest-select r rules))
        (put-Greatest (p r) r rules (latest (select p rules)) refl (latest-Greatest rules))
