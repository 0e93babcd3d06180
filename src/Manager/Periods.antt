-- ===== src/Manager/Periods.antt =====
-- manager/api/periods.py: the periods of the reports and the filter on the entities.
pub mod Calendar
pub mod Steps
pub mod Months
pub mod Reports
pub mod Adjacent
pub mod Filter
mod Tests
use Prim.Native.String.{[], ◌∷◌}
use Prim.Native.Char.{code, Char}
use sipmedia_gw.Prelude.{
  ℕ, zero, suc, ◌+◌, ◌-◌, ◌/◌, ◌%◌, ◌==◌, String, Bool, true, false, not, ◌&&◌, ◌||◌, Option, none,
  some, ltb, leb, eqb, if◌then◌else◌,
}
use sipmedia_gw.Text.{append, show, parse_nat, are_digits, first_chars, skip_chars, is_empty}
use sipmedia_gw.Outcome.{Outcome, ok, refuse, crash, ◌>>=◌}
use sipmedia_gw.Manager.Periods.Calendar.{
  Date, next_day, prev_day, add_days, sub_days, on_day, weekday,
}

pub record Period : Type 0 where
  pub since : Date
  pub until : Date
  pub label : String

-- previousMonth
unfoldable pub previous_month : Date → Date
unfolding prev_day
previous_month today = on_day 1 (prev_day (on_day 1 today))

-- nextMonth
unfoldable pub next_month : Date → Date
unfolding add_days
next_month first = on_day 1 (add_days 7 (on_day 28 first))

-- checkedYear
unfoldable pub checked_year : ℕ → Outcome ℕ
checked_year y =
    if leb 1970 y && leb y 2100 then ok y else refuse 400 "year out of range (1970-2100)"

-- Two digits, and four.
abbrev pub two : ℕ → String
two n = append (show (n / 10 % 10)) (show (n % 10))

abbrev pub four : ℕ → String
four n = append (two (n / 100)) (two n)

-- d.isoformat()[:7]
unfoldable pub month_text : Date → String
unfolding append show
month_text d = append (four d.year) (append "-" (two d.month))

-- d.isoformat()
unfoldable pub iso_text : Date → String
unfolding append show month_text
iso_text d = append (month_text d) (append "-" (two d.day))

-- Monday of the week that is `weeks` weeks back.
unfoldable pub monday : ℕ → Date → Date
unfolding sub_days weekday
monday back today = sub_days (weekday today + back) today

abbrev pub week_from : Date → Period
week_from first = record {
  since = first;
  until = add_days 7 first;
  label = append "week of " (iso_text first);
}

abbrev pub month_from : Date → String → Period
month_from first label = record { since = first; until = next_month first; label = label }

abbrev pub new_year : ℕ → Date
new_year y = record { year = y; month = 1; day = 1 }

abbrev pub year_from : ℕ → String → Period
year_from y label = record { since = new_year y; until = new_year (suc y); label = label }

-- [0-9]{n}, where n is one at least
abbrev pub is_number : ℕ → String → Bool
is_number n s = are_digits s && not (is_empty (skip_chars (n - 1) s)) && is_empty (skip_chars n s)

-- \d{4}-\d{2}, on ASCII digits, as \d{4} is for a year.
unfoldable pub is_month : String → Bool
unfolding are_digits skip_chars first_chars
is_month s =
    is_number 4 (first_chars 4 s)
    && first_chars 1 (skip_chars 4 s) == "-"
    && is_number 2 (skip_chars 5 s)

-- int of a text of digits.
unfoldable pub number : String → ℕ
unfolding parse_nat
number s = elim (parse_nat s) [ none ↦ 0 | some n ↦ n ]

unfoldable pub given_year : String → Outcome Period
unfolding number checked_year
given_year period = checked_year (number period) >>= λ y. ok (year_from y period)

unfoldable pub given_month : String → Outcome Period
unfolding number checked_year next_month first_chars skip_chars
given_month period =
    let month = number (skip_chars 5 period) in
    if leb 1 month && leb month 12
    then (checked_year (number (first_chars 4 period)) >>= λ y.
        ok (month_from (record { year = y; month = month; day = 1 }) period))
    else refuse 400 "month out of range"

-- A period that is none of the names.
unfoldable pub given_period : String → Outcome Period
unfolding is_month given_year given_month are_digits skip_chars
given_period period =
    if is_number 4 period
    then given_year period
    else if is_month period
    then given_month period
    else refuse 400
        "period must be YYYY-MM, YYYY or one of today, week, last_week, month, last_month, year, last_year"

abbrev pub today_period : Date → Period
today_period today = record { since = today; until = next_day today; label = iso_text today }

abbrev pub last_month : Date → Period
last_month today = month_from (previous_month today) (month_text (previous_month today))

unfoldable pub named_period : String → Date → Outcome Period
unfolding previous_month next_month month_text iso_text monday given_period add_days show
named_period period today =
    if is_empty period || period == "last_month"
    then ok (last_month today)
    else if period == "today"
    then ok (today_period today)
    else if period == "week"
    then ok (week_from (monday 0 today))
    else if period == "last_week"
    then ok (week_from (monday 7 today))
    else if period == "month"
    then ok (month_from (on_day 1 today) (month_text (on_day 1 today)))
    else if period == "year"
    then ok (year_from today.year (show today.year))
    else if period == "last_year"
    then ok (year_from (today.year - 1) (show (today.year - 1)))
    else given_period period

-- resolvePeriod
unfoldable pub resolve_period : Option String → Date → Outcome Period
unfolding named_period
resolve_period none today = named_period "" today
resolve_period (some period) today = named_period period today
