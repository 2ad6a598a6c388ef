-- ===== src/Payroll/WorkDays.antt =====
-- The working calendar: app/core/payroll.py, lines 213 to 215 and 277 to 355.
pub mod Counting
pub mod Weeks
mod Tests
use avora_be.Prelude.{
  ℕ, zero, suc, ◌+◌, ◌-◌, ◌/◌, Bool, true, false, not, ◌&&◌, ◌||◌, any, Option, none, some, List,
  [], ◌∷◌, ltb, leb, ◌==◌, if◌then◌else◌,
}
use avora_be.Calendar.{
  Date, date, month_length, to_ordinal, weekday, date_ltb, date_leb, date_eq, next_day,
}

unfoldable pub days_in_month : ℕ → ℕ → ℕ
days_in_month year month = month_length year month

abbrev pub saturday : ℕ
saturday = 5

abbrev pub policy_effective_date : Date
policy_effective_date = date 2026 9 7

-- The second and the fourth Saturday of a month are off.
is_working_saturday : Date → Bool
is_working_saturday d = let nth = (d.day - 1) / 7 + 1 in not ((nth == 2) || (nth == 4))

unfoldable pub is_working_day : Date → ℕ → Bool
unfolding is_working_saturday
is_working_day d per_week =
    if leb per_week (weekday d)
    then false
    else if per_week == 6 && weekday d == saturday && date_leb policy_effective_date d
    then is_working_saturday d
    else true

-- `day in holidays`
abbrev pub is_holiday : List Date → Date → Bool
is_holiday holidays d = any (date_eq d) holidays

-- The day counts towards the total.
abbrev pub counts : List Date → ℕ → Date → Bool
counts holidays per_week d = is_working_day d per_week && not (is_holiday holidays d)

-- The `while current <= end` loop; the fuel is the number of days from `current` to `end`.
count_loop : ℕ → Date → Date → List Date → ℕ → ℕ → ℕ
count_loop zero current end holidays per_week total = total
count_loop (suc fuel) current end holidays per_week total =
    let rest =
      count_loop fuel (next_day current) end holidays per_week
        (if counts holidays per_week current then total + 1 else total) in
    if date_leb current end then rest else total

unfoldable pub working_days_between : Date → Date → List Date → ℕ → ℕ
unfolding count_loop
working_days_between start end holidays per_week =
    if date_ltb end start
    then 0
    else count_loop (to_ordinal end + 1 - to_ordinal start) start end holidays per_week 0

-- The comprehension over the days from `day` on, with `left` of them to go.
unfoldable pub month_days : ℕ → ℕ → ℕ → ℕ → ℕ → List Date
month_days year month zero day per_week = []
month_days year month (suc left) day per_week =
    let rest = month_days year month left (day + 1) per_week in
    if is_working_day (date year month day) per_week then date year month day ∷ rest else rest

unfoldable pub weekdays_in_month : ℕ → ℕ → ℕ → List Date
unfolding month_days
weekdays_in_month year month per_week = month_days year month (month_length year month) 1 per_week

unfoldable pub payroll_window : ℕ → ℕ → Option Date → Date × Date
payroll_window year month none = (date year month 1, date year month (days_in_month year month))
payroll_window year month (some hire_date) =
    let first = date year month 1 in
    let last = date year month (days_in_month year month) in
    if date_ltb first hire_date then (hire_date, last) else (first, last)

unfoldable pub payable_base_days : ℕ → ℕ → Option Date → ℕ
unfolding payroll_window
payable_base_days year month hire_date =
    let (start, end) = payroll_window year month hire_date in
    if date_leb start end then to_ordinal end - to_ordinal start + 1 else 0
