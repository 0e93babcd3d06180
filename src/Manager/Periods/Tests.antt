-- ===== src/Manager/Periods/Tests.antt =====
-- The periods of a day, and the filter of a query, on concrete inputs.
use sipmedia_gw.Prelude.{◌≡◌, refl, true, arith, none, some, [], any, select, if◌then◌else◌}
use sipmedia_gw.Text.{
  strip, lstrip, rstrip, is_space, append, show, digits, is_empty, are_digits, skip_chars,
  first_chars, parse_nat,
}
use sipmedia_gw.Outcome.{ok, refuse}
use sipmedia_gw.Manager.Periods.Calendar.{
  Date, IsValid, ordinal, weekday, before_year, before_month, is_leap, month_days, prev_day,
  next_day, add_days,
}
use sipmedia_gw.Manager.Periods.Adjacent.{Meet, resolve_period-Meet}
use sipmedia_gw.Manager.Periods.Reports.{Shows, resolve_period-Shows}
use sipmedia_gw.Manager.Periods.Filter.{
  passes, unit_filter, filter_of, is_chosen, wanted_units, split_commas, unit_filter-is_chosen,
}
use sipmedia_gw.Manager.Periods.{
  resolve_period, named_period, given_period, given_month, is_month, number, next_month,
  previous_month, month_text,
}

abbrev today : Date
today = record { year = 2024; month = 3; day = 1 }

today-IsValid : IsValid today
unfolding month_days
today-IsValid = (omega arith, omega arith, omega arith, omega arith, omega arith)

resolve_period-Meet_example :
    Meet (resolve_period (some "last_week") today) (resolve_period (some "week") today)
    × Meet (resolve_period (some "last_month") today) (resolve_period (some "month") today)
    × Meet (resolve_period (some "last_year") today) (resolve_period (some "year") today)
resolve_period-Meet_example = resolve_period-Meet today today-IsValid (omega arith)

resolve_period-Shows_example :
    Shows today (resolve_period (some "today") today)
    × Shows today (resolve_period (some "week") today)
    × Shows today (resolve_period (some "month") today)
    × Shows today (resolve_period (some "year") today)
resolve_period-Shows_example = resolve_period-Shows today today-IsValid (omega arith)

-- The first of March 2024 is a Friday.
friday : weekday today ≡ 4
unfolding weekday ordinal before_year before_month is_leap month_days
friday = refl

leap_month :
    resolve_period none today
    ≡ ok (record {
      since = record { year = 2024; month = 2; day = 1 };
      until = record { year = 2024; month = 3; day = 1 };
      label = "2024-02";
    })
unfolding resolve_period named_period previous_month next_month prev_day next_day add_days is_leap
    month_days month_text append show digits
leap_month = refl

thirteenth : resolve_period (some "2024-13") today ≡ refuse 400 "month out of range"
unfolding resolve_period named_period given_period given_month is_month number are_digits skip_chars
    first_chars parse_nat
thirteenth = refl

unit_filter-is_chosen_example :
    passes (unit_filter (some "north, (unassigned)")) (some "north")
    ≡ is_chosen
        (if is_empty "north, (unassigned)"
          then []
          else wanted_units (split_commas "north, (unassigned)"))
        (some "north")
unit_filter-is_chosen_example = unit_filter-is_chosen "north, (unassigned)" (some "north")

north : passes (unit_filter (some "north, (unassigned)")) (some "north") ≡ true
unfolding passes unit_filter filter_of split_commas wanted_units strip lstrip rstrip is_space select
    any
north = refl
