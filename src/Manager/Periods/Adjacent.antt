-- ===== src/Manager/Periods/Adjacent.antt =====
-- resolvePeriod of manager/api/periods.py: a week, month or year and the one before it.
use sipmedia_gw.Prelude.{ℕ, zero, suc, ◌+◌, ◌-◌, ◌≤◌, ◌<◌, ◌≡◌, refl, ap, ◌∙◌, some, arith}
use sipmedia_gw.Outcome.{Outcome, ok}
use sipmedia_gw.Manager.Periods.Calendar.{
  Date, add_days, sub_days, ordinal, IsValid, before_year, weekday,
}
use sipmedia_gw.Manager.Periods.Steps.{add_days-sub_days}
use sipmedia_gw.Manager.Periods.Months.{next_month-previous_month}
use sipmedia_gw.Manager.Periods.{Period, new_year, monday, resolve_period, named_period}

second_year : (y : ℕ) → 2 ≤ y → 365 ≤ before_year y
unfolding before_year
second_year zero second = omega arith
second_year (suc zero) second = omega arith
second_year (suc (suc y)) second = ground arith

-- From year 2 on there are two weeks before a date.
pub room_before : (d : Date) → 2 ≤ d.year → 14 < ordinal d
unfolding ordinal
room_before d second = let days = second_year d.year second in omega arith

pub weekday-Below : (d : Date) → weekday d < 7
unfolding weekday
weekday-Below d = omega arith

weeks : (d : Date) → IsValid d → 2 ≤ d.year → add_days 7 (monday 7 d) ≡ monday 0 d
unfolding monday
weeks d valid second =
    let room = room_before d second in
    let below = weekday-Below d in
    let plain : weekday d ≡ weekday d + 0 = omega arith in
    add_days-sub_days 7 (weekday d) d valid (omega arith) ∙ ap (λ n. sub_days n d) plain

-- Each of two periods is one, and the first ends on the day on which the second begins.
pub Meet : Outcome Period → Outcome Period → Type 0
Meet first second =
    (p : Period) × (q : Period) × (first ≡ ok p) × (second ≡ ok q) × (p.until ≡ q.since)

-- On a day of the calendar from year 2 on, last week ends on the day on which this week begins, last
-- month on the one of this month and last year on the one of this year.
pub resolve_period-Meet :
    (today : Date)
    → IsValid today
    → 2 ≤ today.year
    → Meet (resolve_period (some "last_week") today) (resolve_period (some "week") today)
      × Meet (resolve_period (some "last_month") today) (resolve_period (some "month") today)
      × Meet (resolve_period (some "last_year") today) (resolve_period (some "year") today)
unfolding resolve_period named_period Meet
resolve_period-Meet today valid second =
    let back : suc (today.year - 1) ≡ today.year = omega arith in
    (
      (_, _, refl, refl, weeks today valid second),
      (_, _, refl, refl, next_month-previous_month today valid second),
      (_, _, refl, refl, ap new_year back),
    )
