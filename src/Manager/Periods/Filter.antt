-- ===== src/Manager/Periods/Filter.antt =====
-- unitFilter of manager/api/periods.py: the calls of the entities that were chosen.
use Prim.Native.String.{[], ◌∷◌}
use Prim.Native.Char.{code, Char}
use sipmedia_gw.Prelude.{
  ℕ, ◌≤◌, suc, sym, ◌==◌, String, ◌≡◌, refl, ap, ◌∙◌, Bool, true, false, not, ◌&&◌, ◌||◌, Option,
  none, some, List, [], ◌∷◌, eqb, any, select, length, length-select-le, eq_iff, if_true, if_false,
  if◌then◌else◌, Bool-cases, arith, inl, inr,
}
use sipmedia_gw.Text.{strip, is_empty}

abbrev pub with_first : Char → List String → List String
with_first c [] = (c ∷ []) ∷ []
with_first c (part ∷ rest) = (c ∷ part) ∷ rest

-- units.split(",")
unfoldable pub split_commas : String → List String
split_commas [] = [] ∷ []
split_commas (c ∷ s) =
    let rest = split_commas s in if eqb (code c) 44 then [] ∷ rest else with_first c rest

-- The parts without the spaces around, those that are left empty taken out.
unfoldable pub wanted_units : List String → List String
unfolding strip
wanted_units [] = []
wanted_units (part ∷ rest) =
    let others = wanted_units rest in if is_empty (strip part) then others else strip part ∷ others

-- u != "(unassigned)"
abbrev pub is_named : String → Bool
is_named u = not (u == "(unassigned)")

-- The condition added to the query: its clauses, joined by OR, with the parameter of the first.
pub record Condition : Type 0 where
  pub any_of : Option (List String)
  pub is_null : Bool

-- unitFilter, `none` for no condition.
unfoldable pub filter_of : List String → Option Condition
unfolding select
filter_of [] = none
filter_of (u ∷ us) =
    let named = select is_named (u ∷ us) in
    some (record {
      any_of = elim named [ [] ↦ none | ◌∷◌ n ns ↦ some (n ∷ ns) ];
      is_null = not (eqb (length named) (length (u ∷ us)));
    })

unfoldable pub unit_filter : Option String → Option Condition
unfolding filter_of split_commas wanted_units
unit_filter none = none
unit_filter (some units) =
    if is_empty units then none else filter_of (wanted_units (split_commas units))

-- What the condition says of a call's org_unit; NULL = ANY(...) is not true.
abbrev pub member : String → Option (List String) → Bool
member u none = false
member u (some names) = any (λ name. name == u) names

unfoldable pub passes : Option Condition → Option String → Bool
passes none unit = true
passes (some condition) none = condition.is_null
passes (some condition) (some u) = member u condition.any_of

-- What was chosen: every unit where nothing is, else the unit among the names, or the absence of
-- one by its own name.
unfoldable pub is_chosen : List String → Option String → Bool
unfolding any
is_chosen [] unit = true
is_chosen (w ∷ ws) none = any (λ name. name == "(unassigned)") (w ∷ ws)
is_chosen (w ∷ ws) (some u) = is_named u && any (λ name. name == u) (w ∷ ws)

unequal : (n m : ℕ) → n ≤ m → not (eqb n (suc m)) ≡ true
unequal n m below = ground arith

one_more : (n m : ℕ) → not (eqb (suc n) (suc m)) ≡ not (eqb n m)
one_more n m = ground arith

left_out :
    (ws : List String)
    → not (eqb (length (select is_named ws)) (length ws)) ≡ any (λ name. name == "(unassigned)") ws
unfolding select any
left_out [] = refl
left_out (w ∷ ws) = elim (Bool-cases (w == "(unassigned)")) [
  | inl absent ↦ rw absent (unequal _ _ (length-select-le is_named ws))
  | inr named ↦ rw named (one_more _ _ ∙ left_out ws)
]

-- An element that is kept, and one that is not, before what the rest has.
kept : (e r n a : Bool) → (e ≡ true → n ≡ true) → r ≡ n && a → e || r ≡ n && (e || a)
kept true r n a named rest = sym (ap (λ b. b && true) (named refl))
kept false r n a named rest = rest

dropped : (e r n a : Bool) → (e ≡ true → n ≡ false) → r ≡ n && a → r ≡ n && (e || a)
dropped true r n a named rest =
    rest ∙ ap (λ b. b && a) (named refl) ∙ sym (ap (λ b. b && true) (named refl))
dropped false r n a named rest = rest

none_of : (b : Bool) → false ≡ b && false
none_of true = refl
none_of false = refl

same_name : (w u : String) → (w == u) ≡ true → is_named u ≡ is_named w
same_name w u same = ap is_named (sym ((eq_iff w u).0 same))

among :
    (u : String) (ws : List String)
    → any (λ name. name == u) (select is_named ws) ≡ is_named u && any (λ name. name == u) ws
unfolding select any
among u [] = none_of (is_named u)
among u (w ∷ ws) = elim (Bool-cases (is_named w)) [
  | inl named ↦
      ap (any (λ name. name == u))
        (if_true (is_named w) (w ∷ select is_named ws) (select is_named ws) named)
      ∙ kept (w == u) (any (λ name. name == u) (select is_named ws)) (is_named u)
          (any (λ name. name == u) ws) (λ same. same_name w u same ∙ named) (among u ws)
  | inr other ↦
      ap (any (λ name. name == u))
        (if_false (is_named w) (w ∷ select is_named ws) (select is_named ws) other)
      ∙ dropped (w == u) (any (λ name. name == u) (select is_named ws)) (is_named u)
          (any (λ name. name == u) ws) (λ same. same_name w u same ∙ other) (among u ws)
]

member-any :
    (u : String) (ws : List String)
    → member u (elim ws [ [] ↦ none | ◌∷◌ n ns ↦ some (n ∷ ns) ]) ≡ any (λ name. name == u) ws
unfolding any
member-any u [] = refl
member-any u (n ∷ ns) = refl

filter_of-is_chosen :
    (ws : List String) (unit : Option String) → passes (filter_of ws) unit ≡ is_chosen ws unit
unfolding filter_of passes is_chosen
filter_of-is_chosen [] unit = refl
filter_of-is_chosen (w ∷ ws) none = left_out (w ∷ ws)
filter_of-is_chosen (w ∷ ws) (some u) = member-any u (select is_named (w ∷ ws)) ∙ among u (w ∷ ws)

-- The condition of the filter lets exactly the calls of the chosen units pass: of every unit where
-- no name is left, those without a unit where the name for it is among them, and those of a unit
-- whose name is among them and is not that one.
pub unit_filter-is_chosen :
    (units : String) (unit : Option String)
    → passes (unit_filter (some units)) unit
      ≡ is_chosen (if is_empty units then [] else wanted_units (split_commas units)) unit
unfolding unit_filter
unit_filter-is_chosen units unit = elim (Bool-cases (is_empty units)) [
  | inl empty ↦ rw empty (filter_of-is_chosen [] unit)
  | inr given ↦ rw given (filter_of-is_chosen (wanted_units (split_commas units)) unit)
]
