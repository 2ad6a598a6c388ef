-- ===== src/Calendar/Days.antt =====
-- The day after and the day before.
use native.Mathlib.Numerals.{add-one}
use avora_be.Prelude.{ℕ, suc, ◌+◌, ◌-◌, ◌≤◌, ◌<◌, ◌≡◌, ◌%◌, refl, ap, arith}
use avora_be.Calendar.{
  Date, IsValid, to_ordinal, month_length, days_before_year, days_before_month, next_day, prev_day,
  weekday,
}
use avora_be.Calendar.Months.{
  days_before_year-suc, days_before_month-suc, twelve_months, month_length_bounds,
}

first_month : (y : ℕ) → days_before_month y 1 ≡ 0
unfolding days_before_month
first_month y = refl

december : (y : ℕ) → month_length y 12 ≡ 31
unfolding month_length
december y = refl

pub next_day-IsValid : (d : Date) → IsValid d → IsValid (next_day d)
unfolding next_day
next_day-IsValid d v =
    ground (arith, month_length_bounds d.year (d.month + 1), month_length_bounds (d.year + 1) 1)

-- The start of a month and of a year, as `next_day` writes them.
next_month :
    (y m : ℕ) → 1 ≤ m → days_before_month y (m + 1) ≡ days_before_month y m + month_length y m
next_month y m h = rw (add-one m) (days_before_month-suc y m h)

next_year : (y : ℕ) → 1 ≤ y → days_before_year (y + 1) ≡ days_before_year y + days_before_month y 13
next_year y h = rw (add-one y) (omega (arith, days_before_year-suc y h, twelve_months y))

-- The next day has the next ordinal.
pub to_ordinal-next_day : (d : Date) → IsValid d → to_ordinal (next_day d) ≡ suc (to_ordinal d)
unfolding next_day to_ordinal
to_ordinal-next_day d v = ground (
  arith,
  next_month d.year d.month v.month_pos,
  next_year d.year v.year_pos,
  first_month (d.year + 1),
  days_before_month-suc d.year d.month v.month_pos,
  λ (e : d.month ≡ 12). ap (λ (m : ℕ). days_before_month d.year (suc m)) e,
)

pub weekday-next_day : (d : Date) → IsValid d → weekday (next_day d) ≡ (weekday d + 1) % 7
unfolding weekday
weekday-next_day d v = omega (arith, to_ordinal-next_day d v)

-- A valid day with one before it has the ordinal after that day's.
pub prev_day-IsValid : (d : Date) → IsValid d → 1 < d.year → IsValid (prev_day d)
unfolding prev_day
prev_day-IsValid d v h =
    ground (arith, month_length_bounds d.year (d.month - 1), december (d.year - 1))

-- The day after the day before is the day itself.
pub next_day-prev_day : (d : Date) → IsValid d → 1 < d.year → next_day (prev_day d) ≡ d
unfolding prev_day next_day
next_day-prev_day d v h = ground (arith, december (d.year - 1))

pub to_ordinal-prev_day :
    (d : Date) → IsValid d → 1 < d.year → suc (to_ordinal (prev_day d)) ≡ to_ordinal d
to_ordinal-prev_day d v h = omega (
  arith,
  to_ordinal-next_day (prev_day d) (prev_day-IsValid d v h),
  ap to_ordinal (next_day-prev_day d v h),
)
