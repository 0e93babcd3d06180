-- ===== src/Manager/Periods/Steps.antt =====
-- Dates a number of days before or after another: still dates of the calendar, that many days away.
use sipmedia_gw.Prelude.{
  ℕ, zero, suc, ◌+◌, ◌-◌, ◌≤◌, ◌<◌, ◌≡◌, refl, sym, ap, ◌∙◌, inl, inr, Bool, true, false, ltb,
  Bool-cases, arith, subst,
}
use sipmedia_gw.Manager.Periods.Calendar.{
  Date, is_leap, month_days, last_day, next_day, prev_day, add_days, sub_days, ordinal, IsValid,
  month_days-least, ordinal-next_day, before_year, before_month,
}

pub next_day-IsValid : (d : Date) → IsValid d → IsValid (next_day d)
unfolding next_day
next_day-IsValid d (y1, m1, m12, d1, dl) = elim (Bool-cases (ltb d.day (last_day d))) [
  | inl within ↦ rw within (y1, m1, m12, omega arith, ground arith)
  | inr over ↦ elim (Bool-cases (ltb d.month 12)) [
    | inl within ↦
        let least = month_days-least (is_leap d.year) (suc d.month) in
        rw (over, within) (y1, omega arith, ground arith, omega arith, omega arith)
    | inr past ↦
        let least = month_days-least (is_leap (suc d.year)) 1 in
        rw (over, past) (omega arith, omega arith, omega arith, omega arith, omega arith)
  ]
]

second_year : (y : ℕ) (leap : Bool) → 1 ≤ y → 1 < before_year y + before_month leap 1 + 1 → 2 ≤ y
unfolding before_year before_month
second_year zero leap from_one later = omega arith
second_year (suc zero) leap from_one later = omega arith
second_year (suc (suc y)) leap from_one later = omega arith

-- The first of January that has a day before it.
first_day : (d : Date) → IsValid d → 1 < ordinal d → d.month ≡ 1 → d.day ≡ 1 → 2 ≤ d.year
unfolding ordinal
first_day d (y1, m1, m12, d1, dl) later january first = second_year d.year (is_leap d.year) y1 (
    subst (λ k. 1 < before_year d.year + before_month (is_leap d.year) 1 + k) first
      (subst (λ m. 1 < before_year d.year + before_month (is_leap d.year) m + d.day) january later))

december : (y : ℕ) → month_days (is_leap y) 12 ≡ 31
unfolding month_days
december y = refl

pub prev_day-IsValid : (d : Date) → IsValid d → 1 < ordinal d → IsValid (prev_day d)
unfolding prev_day
prev_day-IsValid d (y1, m1, m12, d1, dl) later = elim (Bool-cases (ltb 1 d.day)) [
  | inl inside ↦ rw inside (y1, m1, m12, ground arith, omega arith)
  | inr first ↦ elim (Bool-cases (ltb 1 d.month)) [
    | inl inside ↦
        let least = month_days-least (is_leap d.year) (d.month - 1) in
        rw (first, inside) (y1, ground arith, omega arith, omega arith, omega arith)
    | inr january ↦
        let second = first_day d (y1, m1, m12, d1, dl) later (ground arith) (ground arith) in
        let dec = december (d.year - 1) in
        rw (first, january) (omega arith, omega arith, omega arith, omega arith, omega arith)
  ]
]

not_less : (k : ℕ) → ltb k k ≡ false
not_less k = ground arith

within_month :
    (d : Date)
    → ltb 1 d.day ≡ true
    → ltb (d.day - 1) (last_day d) ≡ true
    → next_day (prev_day d) ≡ d
unfolding next_day prev_day
within_month d inside within =
    rw (inside, within)
      (ap (λ k. record { year = d.year; month = d.month; day = k }) (ground arith))

within_year :
    (d : Date)
    → d.day ≡ 1
    → ltb 1 d.day ≡ false
    → ltb 1 d.month ≡ true
    → ltb (d.month - 1) 12 ≡ true
    → next_day (prev_day d) ≡ d
unfolding next_day prev_day
within_year d one first inside within =
    rw (first, inside, not_less (month_days (is_leap d.year) (d.month - 1)), within)
      (ap (λ m. record { year = d.year; month = m; day = 1 }) (ground arith)
        ∙ ap (λ k. record { year = d.year; month = d.month; day = k }) (sym one))

new_year :
    (d : Date)
    → 1 ≤ d.year
    → d.month ≡ 1
    → d.day ≡ 1
    → ltb 1 d.day ≡ false
    → ltb 1 d.month ≡ false
    → next_day (prev_day d) ≡ d
unfolding next_day prev_day
new_year d from_one january one first over =
    rw (first, over)
      (ap (λ y. record { year = y; month = 1; day = 1 }) (omega arith)
        ∙ ap (λ m. record { year = d.year; month = m; day = 1 }) (sym january)
        ∙ ap (λ k. record { year = d.year; month = d.month; day = k }) (sym one))

pub next_day-prev_day : (d : Date) → IsValid d → 1 < ordinal d → next_day (prev_day d) ≡ d
next_day-prev_day d (y1, m1, m12, d1, dl) later = elim (Bool-cases (ltb 1 d.day)) [
  | inl inside ↦ within_month d inside (ground arith)
  | inr first ↦ elim (Bool-cases (ltb 1 d.month)) [
    | inl inside ↦ within_year d (ground arith) first inside (ground arith)
    | inr january ↦ new_year d y1 (ground arith) (ground arith) first january
  ]
]

pub ordinal-prev_day :
    (d : Date) → IsValid d → 1 < ordinal d → suc (ordinal (prev_day d)) ≡ ordinal d
ordinal-prev_day d ok later =
    sym (ordinal-next_day (prev_day d) (prev_day-IsValid d ok later))
    ∙ ap ordinal (next_day-prev_day d ok later)

pub ordinal-add_days : (k : ℕ) (d : Date) → IsValid d → ordinal (add_days k d) ≡ k + ordinal d
unfolding add_days
ordinal-add_days zero d ok = omega arith
ordinal-add_days (suc k) d ok =
    ordinal-add_days k (next_day d) (next_day-IsValid d ok)
    ∙ ap (λ n. k + n) (ordinal-next_day d ok)
    ∙ omega arith

pub add_days-IsValid : (k : ℕ) (d : Date) → IsValid d → IsValid (add_days k d)
unfolding add_days
add_days-IsValid zero d ok = ok
add_days-IsValid (suc k) d ok = add_days-IsValid k (next_day d) (next_day-IsValid d ok)

pub sub_days-IsValid : (k : ℕ) (d : Date) → IsValid d → k < ordinal d → IsValid (sub_days k d)
unfolding sub_days
sub_days-IsValid zero d ok later = ok
sub_days-IsValid (suc k) d ok later =
    let one = ordinal-prev_day d ok (omega arith) in
    sub_days-IsValid k (prev_day d) (prev_day-IsValid d ok (omega arith)) (omega arith)

pub ordinal-sub_days :
    (k : ℕ) (d : Date) → IsValid d → k < ordinal d → k + ordinal (sub_days k d) ≡ ordinal d
unfolding sub_days
ordinal-sub_days zero d ok later = omega arith
ordinal-sub_days (suc k) d ok later =
    let one = ordinal-prev_day d ok (omega arith) in
    let rest =
      ordinal-sub_days k (prev_day d) (prev_day-IsValid d ok (omega arith)) (omega arith) in
    omega arith

next_day-sub_days :
    (k : ℕ) (d : Date)
    → IsValid d
    → suc k < ordinal d
    → next_day (sub_days (suc k) d) ≡ sub_days k d
unfolding sub_days
next_day-sub_days zero d ok later = next_day-prev_day d ok later
next_day-sub_days (suc k) d ok later =
    let one = ordinal-prev_day d ok (omega arith) in
    next_day-sub_days k (prev_day d) (prev_day-IsValid d ok (omega arith)) (omega arith)

-- Some days on from a day that is some more days back.
pub add_days-sub_days :
    (j k : ℕ) (d : Date)
    → IsValid d
    → k + j < ordinal d
    → add_days j (sub_days (k + j) d) ≡ sub_days k d
unfolding add_days
add_days-sub_days zero k d ok later = ap (λ n. sub_days n d) (omega arith)
add_days-sub_days (suc j) k d ok later =
    ap (λ n. add_days j (next_day (sub_days n d))) (omega arith)
    ∙ ap (add_days j) (next_day-sub_days (k + j) d ok (omega arith))
    ∙ add_days-sub_days j k d ok (omega arith)
