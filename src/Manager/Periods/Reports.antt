-- ===== src/Manager/Periods/Reports.antt =====
-- resolvePeriod of manager/api/periods.py: the period that stands for the present holds today.
use sipmedia_gw.Prelude.{
  ℕ, zero, suc, ◌+◌, ◌-◌, ◌≤◌, ◌<◌, ◌≡◌, refl, sym, ap, ◌∙◌, subst, Bool, some, arith,
}
use sipmedia_gw.Outcome.{Outcome, ok}
use sipmedia_gw.Manager.Periods.Calendar.{
  Date, is_leap, month_days, month_days-least, add_days, ordinal, ordinal-next_day, IsValid, on_day,
  before_month, year_crossed, weekday,
}
use sipmedia_gw.Manager.Periods.Steps.{ordinal-add_days, ordinal-sub_days, sub_days-IsValid}
use sipmedia_gw.Manager.Periods.Months.{at_day, following, next_month-following, next_day-following}
use sipmedia_gw.Manager.Periods.Adjacent.{room_before, weekday-Below}
use sipmedia_gw.Manager.Periods.{Period, next_month, new_year, monday, resolve_period, named_period}

-- [since, until) holds the day.
unfoldable pub Holds : Date → Period → Type 0
Holds day p = (ordinal p.since ≤ ordinal day) × (ordinal day < ordinal p.until)

ordinal-following :
    (y m : ℕ)
    → 1 ≤ y
    → 1 ≤ m
    → m ≤ 12
    → ordinal (following y m) ≡ suc (ordinal (at_day y m (month_days (is_leap y) m)))
ordinal-following y m y1 m1 m12 =
    let least = month_days-least (is_leap y) m in
    ap ordinal (sym (next_day-following y m))
    ∙ ordinal-next_day (at_day y m (month_days (is_leap y) m))
        (y1, m1, m12, omega arith, omega arith)

month-Holds :
    (d : Date)
    → IsValid d
    → (ordinal (on_day 1 d) ≤ ordinal d) × (ordinal d < ordinal (next_month (on_day 1 d)))
unfolding ordinal
month-Holds d (y1, m1, m12, d1, dl) =
    let next =
      ap ordinal (next_month-following d.year d.month 1)
      ∙ ordinal-following d.year d.month y1 m1 m12 in
    (omega arith, omega arith)

before_month-next :
    (leap : Bool) (m : ℕ)
    → 1 ≤ m
    → before_month leap (suc m) ≡ before_month leap m + month_days leap m
unfolding before_month
before_month-next leap zero from_one = omega arith
before_month-next leap (suc m) from_one = refl

before_month-rest :
    (leap : Bool) (k m : ℕ)
    → 1 ≤ m
    → before_month leap m + month_days leap m ≤ before_month leap (m + k) + month_days leap (m + k)
before_month-rest leap zero m from_one =
    let same : m + 0 ≡ m = omega arith in
    subst (λ n. before_month leap m + month_days leap m ≤ before_month leap n + month_days leap n)
      (sym same) (omega arith)
before_month-rest leap (suc k) m from_one =
    let next : suc (m + k) ≡ m + suc k = omega arith in
    let rest = before_month-rest leap k m from_one in
    let sum = before_month-next leap (m + k) (omega arith) in
    subst (λ n. before_month leap m + month_days leap m ≤ before_month leap n + month_days leap n)
      next (omega arith)

december : (leap : Bool) → month_days leap 12 ≡ 31
unfolding month_days
december leap = refl

year-Holds :
    (d : Date)
    → IsValid d
    → (ordinal (new_year d.year) ≤ ordinal d) × (ordinal d < ordinal (new_year (suc d.year)))
unfolding ordinal before_month
year-Holds d (y1, m1, m12, d1, dl) =
    let twelve : d.month + (12 - d.month) ≡ 12 = omega arith in
    let rest =
      subst
        (λ n.
          before_month (is_leap d.year) d.month + month_days (is_leap d.year) d.month
          ≤ before_month (is_leap d.year) n + month_days (is_leap d.year) n)
        twelve (before_month-rest (is_leap d.year) (12 - d.month) d.month m1) in
    let last = december (is_leap d.year) in
    let crossed = year_crossed d.year y1 in (omega arith, omega arith)

week-Holds :
    (d : Date)
    → IsValid d
    → 2 ≤ d.year
    → (ordinal (monday 0 d) ≤ ordinal d) × (ordinal d < ordinal (add_days 7 (monday 0 d)))
unfolding monday
week-Holds d valid second =
    let room = room_before d second in
    let below = weekday-Below d in
    let back = ordinal-sub_days (weekday d + 0) d valid (omega arith) in
    let on =
      ordinal-add_days 7 (monday 0 d) (sub_days-IsValid (weekday d + 0) d valid (omega arith)) in
    (omega arith, omega arith)

-- A period that is one and holds the day.
pub Shows : Date → Outcome Period → Type 0
Shows day found = (p : Period) × (found ≡ ok p) × Holds day p

-- On a day of the calendar from year 2 on, each of the periods today, week, month and year holds
-- that day, from its first day on and before the day on which it ends.
pub resolve_period-Shows :
    (today : Date)
    → IsValid today
    → 2 ≤ today.year
    → Shows today (resolve_period (some "today") today)
      × Shows today (resolve_period (some "week") today)
      × Shows today (resolve_period (some "month") today)
      × Shows today (resolve_period (some "year") today)
unfolding resolve_period named_period Shows Holds
resolve_period-Shows today valid second =
    let next = ordinal-next_day today valid in
    (
      (_, refl, (omega arith, omega arith)),
      (_, refl, week-Holds today valid second),
      (_, refl, month-Holds today valid),
      (_, refl, year-Holds today valid),
    )
