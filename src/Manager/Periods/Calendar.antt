-- ===== src/Manager/Periods/Calendar.antt =====
-- Python's dates, as manager/api/periods.py uses them. Its years end at 9999, which no step here is near.
use sipmedia_gw.Prelude.{
  ℕ, zero, suc, ◌+◌, ◌-◌, ◌%◌, ◌≤◌, ◌≡◌, refl, sym, ap, ◌∙◌, inl, inr, Bool, true, false, not, ◌&&◌,
  ◌||◌, ltb, eqb, if◌then◌else◌, Bool-cases, arith,
}

pub record Date : Type 0 where
  pub year : ℕ
  pub month : ℕ
  pub day : ℕ

unfoldable pub is_leap : ℕ → Bool
is_leap y = (eqb (y % 4) 0 && not (eqb (y % 100) 0)) || eqb (y % 400) 0

-- The days of a month.
unfoldable pub month_days : Bool → ℕ → ℕ
month_days leap m =
    if eqb m 2
    then if leap then 29 else 28
    else if eqb m 4 || eqb m 6 || eqb m 9 || eqb m 11
    then 30
    else 31

abbrev pub last_day : Date → ℕ
last_day d = month_days (is_leap d.year) d.month

-- d + timedelta(days=1)
unfoldable pub next_day : Date → Date
unfolding is_leap month_days
next_day d =
    if ltb d.day (last_day d)
    then record { year = d.year; month = d.month; day = suc d.day }
    else if ltb d.month 12
    then record { year = d.year; month = suc d.month; day = 1 }
    else record { year = suc d.year; month = 1; day = 1 }

-- d - timedelta(days=1)
unfoldable pub prev_day : Date → Date
unfolding is_leap month_days
prev_day d =
    if ltb 1 d.day
    then record { year = d.year; month = d.month; day = d.day - 1 }
    else if ltb 1 d.month
    then record {
      year = d.year;
      month = d.month - 1;
      day = month_days (is_leap d.year) (d.month - 1);
    }
    else record { year = d.year - 1; month = 12; day = 31 }

-- d + timedelta(days=k)
unfoldable pub add_days : ℕ → Date → Date
unfolding next_day
add_days zero d = d
add_days (suc k) d = add_days k (next_day d)

-- d - timedelta(days=k)
unfoldable pub sub_days : ℕ → Date → Date
unfolding prev_day
sub_days zero d = d
sub_days (suc k) d = sub_days k (prev_day d)

-- d.replace(day=k)
abbrev pub on_day : ℕ → Date → Date
on_day k d = record { year = d.year; month = d.month; day = k }

unfoldable pub before_year : ℕ → ℕ
unfolding is_leap
before_year zero = 0
before_year (suc zero) = 0
before_year (suc (suc y)) = before_year (suc y) + (if is_leap (suc y) then 366 else 365)

unfoldable pub before_month : Bool → ℕ → ℕ
unfolding month_days
before_month leap zero = 0
before_month leap (suc zero) = 0
before_month leap (suc (suc m)) = before_month leap (suc m) + month_days leap (suc m)

-- d.toordinal(): the days up to d from the first of January of year 1 on.
unfoldable pub ordinal : Date → ℕ
unfolding before_year before_month
ordinal d = before_year d.year + before_month (is_leap d.year) d.month + d.day

-- d.weekday(): 0 on a Monday.
unfoldable pub weekday : Date → ℕ
unfolding ordinal
weekday d = (ordinal d + 6) % 7

-- A date of the calendar.
abbrev pub IsValid : Date → Type 0
IsValid d = (1 ≤ d.year) × (1 ≤ d.month) × (d.month ≤ 12) × (1 ≤ d.day) × (d.day ≤ last_day d)

pub month_days-least : (leap : Bool) (m : ℕ) → 28 ≤ month_days leap m
unfolding month_days
month_days-least leap m = ground arith

pub before_month-year : (leap : Bool) → before_month leap 12 + 31 ≡ (if leap then 366 else 365)
unfolding before_month month_days
before_month-year true = refl
before_month-year false = refl

month_crossed :
    (leap : Bool) (m a : ℕ)
    → 1 ≤ m
    → a + before_month leap (suc m) + 1 ≡ suc (a + before_month leap m + month_days leap m)
unfolding before_month
month_crossed leap (suc m) a from_one = omega arith
month_crossed leap zero a from_one = omega arith

pub year_crossed :
    (y : ℕ) → 1 ≤ y → before_year (suc y) ≡ before_year y + before_month (is_leap y) 12 + 31
unfolding before_year
year_crossed (suc y) from_one =
    ap (λ k. before_year (suc y) + k) (sym (before_month-year (is_leap (suc y)))) ∙ omega arith
year_crossed zero from_one = omega arith

within_month : (d : Date) → ltb d.day (last_day d) ≡ true → ordinal (next_day d) ≡ suc (ordinal d)
unfolding ordinal next_day
within_month d within = rw within (omega arith)

end_of_month :
    (d : Date)
    → 1 ≤ d.month
    → d.day ≡ last_day d
    → ltb d.day (last_day d) ≡ false
    → ltb d.month 12 ≡ true
    → ordinal (next_day d) ≡ suc (ordinal d)
unfolding ordinal next_day
end_of_month d from_one last over within =
    rw (over, within, last) (month_crossed (is_leap d.year) d.month (before_year d.year) from_one)

december : (leap : Bool) → month_days leap 12 ≡ 31
unfolding month_days
december leap = refl

end_of_year :
    (d : Date)
    → 1 ≤ d.year
    → d.month ≡ 12
    → d.day ≡ 31
    → ltb d.day (last_day d) ≡ false
    → ltb d.month 12 ≡ false
    → ordinal (next_day d) ≡ suc (ordinal d)
unfolding ordinal next_day before_month
end_of_year d from_one m12 d31 over past =
    rw (over, past, m12, d31) (ap (λ k. k + 0 + 1) (year_crossed d.year from_one) ∙ omega arith)

-- A day has the ordinal after the one of the day before it.
pub ordinal-next_day : (d : Date) → IsValid d → ordinal (next_day d) ≡ suc (ordinal d)
ordinal-next_day d (y1, m1, m12, d1, dl) = elim (Bool-cases (ltb d.day (last_day d))) [
  | inl within ↦ within_month d within
  | inr over ↦ elim (Bool-cases (ltb d.month 12)) [
    | inl within ↦ end_of_month d m1 (ground arith) over within
    | inr past ↦
        let dec : d.month ≡ 12 = ground arith in
        let last : last_day d ≡ 31 =
          ap (λ m. month_days (is_leap d.year) m) dec ∙ december (is_leap d.year) in
        end_of_year d y1 dec (ground arith) over past
  ]
]
