-- ===== src/Calendar.antt =====
-- The part of Python's `datetime.date` and `calendar.monthrange` that the program uses: the
-- proleptic Gregorian calendar. Years are not bounded above; Python stops at 9999.
pub mod Months
pub mod Order
pub mod Days
use avora_be.Prelude.{
  ℕ, zero, suc, ◌+◌, ◌-◌, ◌*◌, ◌/◌, ◌%◌, ◌≤◌, Bool, true, false, ◌||◌, not, ltb, leb, ◌==◌,
  if◌then◌else◌,
}

pub record Date : Type 0 where
  pub year : ℕ
  pub month : ℕ
  pub day : ℕ

abbrev pub date : ℕ → ℕ → ℕ → Date
date nth_year nth_month nth_day = record { year = nth_year; month = nth_month; day = nth_day }

unfoldable pub is_leap : ℕ → Bool
is_leap y = if y % 400 == 0 then true else if y % 100 == 0 then false else y % 4 == 0

-- `calendar.monthrange(year, month)[1]`
unfoldable pub month_length : ℕ → ℕ → ℕ
month_length year month =
    if month == 2
    then (if is_leap year then 29 else 28)
    else if (month == 4) || (month == 6) || (month == 9) || (month == 11)
    then 30
    else 31

unfoldable pub year_length : ℕ → ℕ
year_length y = if is_leap y then 366 else 365

unfoldable pub days_before_year : ℕ → ℕ
days_before_year y = let p = y - 1 in p * 365 + p / 4 - p / 100 + p / 400

unfoldable pub days_before_month : ℕ → ℕ → ℕ
days_before_month y zero = 0
days_before_month y (suc zero) = 0
days_before_month y (suc (suc past)) = days_before_month y (suc past) + month_length y (suc past)

-- `date.toordinal`
unfoldable pub to_ordinal : Date → ℕ
to_ordinal d = days_before_year d.year + days_before_month d.year d.month + d.day

-- `date.weekday`: Monday is 0.
unfoldable pub weekday : Date → ℕ
weekday d = (to_ordinal d + 6) % 7

-- The order of `date`: by year, then month, then day.
unfoldable pub date_ltb : Date → Date → Bool
date_ltb a b =
    if a.year == b.year
    then (if a.month == b.month then ltb a.day b.day else ltb a.month b.month)
    else ltb a.year b.year

abbrev pub date_leb : Date → Date → Bool
date_leb a b = not (date_ltb b a)

abbrev pub date_eq : Date → Date → Bool
date_eq a b =
    if a.year == b.year then (if a.month == b.month then a.day == b.day else false) else false

-- `max` and `min` of two dates: the first where they are equal.
abbrev pub date_max : Date → Date → Date
date_max a b = if date_ltb a b then b else a

abbrev pub date_min : Date → Date → Date
date_min a b = if date_ltb b a then b else a

-- `d + timedelta(days=1)`
unfoldable pub next_day : Date → Date
next_day d =
    if ltb d.day (month_length d.year d.month)
    then date d.year d.month (d.day + 1)
    else if ltb d.month 12
    then date d.year (d.month + 1) 1
    else date (d.year + 1) 1 1

-- `d - timedelta(days=1)`
unfoldable pub prev_day : Date → Date
prev_day d =
    if ltb 1 d.day
    then date d.year d.month (d.day - 1)
    else if ltb 1 d.month
    then date d.year (d.month - 1) (month_length d.year (d.month - 1))
    else date (d.year - 1) 12 31

-- The dates that `date(y, m, d)` accepts.
pub record IsValid (d : Date) : Type 0 where
  pub year_pos : 1 ≤ d.year
  pub month_pos : 1 ≤ d.month
  pub month_top : d.month ≤ 12
  pub day_pos : 1 ≤ d.day
  pub day_top : d.day ≤ month_length d.year d.month
