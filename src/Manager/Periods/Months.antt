-- ===== src/Manager/Periods/Months.antt =====
-- nextMonth and previousMonth of manager/api/periods.py, as steps from a month to its neighbours.
use sipmedia_gw.Prelude.{
  ℕ, zero, suc, ◌+◌, ◌-◌, ◌≤◌, ◌≡◌, refl, sym, ap, ◌∙◌, inl, inr, Bool, true, false, ltb,
  if◌then◌else◌, Bool-cases, if_true, arith,
}
use sipmedia_gw.Manager.Periods.Calendar.{
  Date, is_leap, month_days, next_day, prev_day, add_days, IsValid, on_day, month_days-least,
}
use sipmedia_gw.Manager.Periods.{next_month, previous_month, new_year}

abbrev pub at_day : ℕ → ℕ → ℕ → Date
at_day y m k = record { year = y; month = m; day = k }

-- The first of the month after.
abbrev pub following : ℕ → ℕ → Date
following y m = if ltb m 12 then at_day y (suc m) 1 else new_year (suc y)

next_day-inside :
    (y m k : ℕ)
    → ltb k (month_days (is_leap y) m) ≡ true
    → next_day (at_day y m k) ≡ at_day y m (suc k)
unfolding next_day
next_day-inside y m k inside = rw inside refl

not_less : (k : ℕ) → ltb k k ≡ false
not_less k = ground arith

pub next_day-following :
    (y m : ℕ) → next_day (at_day y m (month_days (is_leap y) m)) ≡ following y m
unfolding next_day
next_day-following y m = rw (not_less (month_days (is_leap y) m)) refl

add_days-inside :
    (n y m k : ℕ)
    → k + n ≤ month_days (is_leap y) m
    → add_days n (at_day y m k) ≡ at_day y m (k + n)
unfolding add_days
add_days-inside zero y m k inside = ap (at_day y m) (omega arith)
add_days-inside (suc n) y m k inside =
    ap (add_days n) (next_day-inside y m k (ground arith))
    ∙ add_days-inside n y m (suc k) (omega arith)
    ∙ ap (at_day y m) (omega arith)

add_days-plus : (a b : ℕ) (d : Date) → add_days (a + b) d ≡ add_days b (add_days a d)
unfolding add_days
add_days-plus zero b d = let same : 0 + b ≡ b = omega arith in ap (λ n. add_days n d) same
add_days-plus (suc a) b d =
    let same : suc a + b ≡ suc (a + b) = omega arith in
    ap (λ n. add_days n d) same ∙ add_days-plus a b (next_day d)

-- Seven days after the 28th of a month of 28 to 31 days.
seven_days :
    (y m y' m' k : ℕ)
    → 28 + k ≡ month_days (is_leap y) m
    → k ≤ 3
    → next_day (at_day y m (month_days (is_leap y) m)) ≡ at_day y' m' 1
    → add_days 7 (at_day y m 28) ≡ at_day y' m' (7 - k)
unfolding add_days
seven_days y m y' m' k size few next =
    let least = month_days-least (is_leap y') m' in
    let split : 7 ≡ k + suc (6 - k) = omega arith in
    ap (λ n. add_days n (at_day y m 28)) split
    ∙ add_days-plus k (suc (6 - k)) (at_day y m 28)
    ∙ ap (add_days (suc (6 - k))) (add_days-inside k y m 28 (omega arith) ∙ ap (at_day y m) size)
    ∙ ap (add_days (6 - k)) next
    ∙ add_days-inside (6 - k) y' m' 1 (omega arith)
    ∙ ap (at_day y' m') (omega arith)

month_days-most : (leap : Bool) (m : ℕ) → month_days leap m ≤ 31
unfolding month_days
month_days-most leap m = ground arith

next_month-to :
    (y m y' m' k : ℕ)
    → next_day (at_day y m (month_days (is_leap y) m)) ≡ at_day y' m' 1
    → next_month (at_day y m k) ≡ at_day y' m' 1
unfolding next_month
next_month-to y m y' m' k next =
    let least = month_days-least (is_leap y) m in
    let most = month_days-most (is_leap y) m in
    ap (on_day 1)
      (seven_days y m y' m' (month_days (is_leap y) m - 28) (omega arith) (omega arith) next)

pub next_month-following : (y m k : ℕ) → next_month (at_day y m k) ≡ following y m
next_month-following y m k = elim (Bool-cases (ltb m 12)) [
  | inl inside ↦
      next_month-to y m y (suc m) k (next_day-following y m ∙ rw inside refl) ∙ sym (rw inside refl)
  | inr last ↦
      next_month-to y m (suc y) 1 k (next_day-following y m ∙ rw last refl) ∙ sym (rw last refl)
]

within_year :
    (d : Date)
    → ltb 1 d.month ≡ true
    → previous_month d ≡ record { year = d.year; month = d.month - 1; day = 1 }
unfolding previous_month prev_day
within_year d inside = rw inside refl

january :
    (d : Date)
    → ltb 1 d.month ≡ false
    → previous_month d ≡ record { year = d.year - 1; month = 12; day = 1 }
unfolding previous_month prev_day
january d first = rw first refl

pub next_month-previous_month :
    (d : Date) → IsValid d → 2 ≤ d.year → next_month (previous_month d) ≡ on_day 1 d
next_month-previous_month d (y1, m1, m12, d1, dl) second = elim (Bool-cases (ltb 1 d.month)) [
  | inl inside ↦
      ap next_month (within_year d inside)
      ∙ next_month-following d.year (d.month - 1) 1
      ∙ if_true (ltb (d.month - 1) 12) _ _ (ground arith)
      ∙ ap (λ m. at_day d.year m 1) (ground arith)
  | inr first ↦
      ap next_month (january d first)
      ∙ next_month-following (d.year - 1) 12 1
      ∙ ap (λ y. record { year = y; month = 1; day = 1 }) (omega arith)
      ∙ ap (λ m. record { year = d.year; month = m; day = 1 }) (ground arith)
]
