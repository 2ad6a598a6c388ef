-- ===== src/Tenure.antt =====
-- Tenure bands and the leave year: app/core/tenure.py and app/core/leave_year.py.
pub mod Months
pub mod Bands
pub mod LeaveYear
mod Tests
use avora_be.Prelude.{
  ℕ, zero, suc, ◌+◌, ◌-◌, ◌*◌, ◌/◌, ◌%◌, min, Bool, true, false, ltb, leb, ◌==◌, if◌then◌else◌,
}
use avora_be.Calendar.{Date, date, month_length, to_ordinal, date_ltb, date_leb, date_eq, prev_day}

abbrev pub months_in_year : ℕ
months_in_year = 12

pub data TenureStatus : Type 0 where
  probation confirmed tenured : TenureStatus

-- The last day of the month is read off the first of the next one.
unfoldable pub add_months : Date → ℕ → Date
add_months start months =
    let total = start.month - 1 + months in
    let year = start.year + total / 12 in
    let month = total % 12 + 1 in
    let last_day =
      if month == 12
      then 31
      else to_ordinal (date year (month + 1) 1) - to_ordinal (date year month 1) in
    date year month (min start.day last_day)

-- Months from the month of one date to that of another, 0 if that is negative.
abbrev pub month_gap : Date → Date → ℕ
month_gap start target = target.year * 12 + target.month - (start.year * 12 + start.month)

-- `while add_months(start, months) < target: months += 1`; one round is enough.
step_up : ℕ → Date → Date → ℕ → ℕ
step_up zero start target months = months
step_up (suc fuel) start target months =
    let more = step_up fuel start target (months + 1) in
    if date_ltb (add_months start months) target then more else months

-- `while months > 0 and add_months(start, months - 1) >= target: months -= 1`
step_down : Date → Date → ℕ → ℕ
step_down start target zero = zero
step_down start target (suc months) =
    let fewer = step_down start target months in
    if date_leb target (add_months start months) then fewer else suc months

unfoldable pub months_to_reach : Date → Date → ℕ
unfolding step_up step_down
months_to_reach start target =
    step_down start target (step_up 2 start target (month_gap start target))

pub months_completed : Date → Date → ℕ
months_completed start today =
    if date_leb today start
    then 0
    else if ltb today.day start.day
    then month_gap start today - 1
    else month_gap start today

unfoldable pub probation_end : Date → ℕ → Date
probation_end hire_date probation_months = add_months hire_date probation_months

unfoldable pub anniversaries_reached : Date → Date → ℕ
anniversaries_reached start today =
    let months = months_to_reach start today in
    if date_eq (add_months start months) today then months else months - 1

pub tenure_status : Date → Date → ℕ → TenureStatus
tenure_status hire_date today probation_months =
    let months = anniversaries_reached hire_date today in
    if leb months_in_year months
    then TenureStatus.tenured
    else if leb probation_months months
    then TenureStatus.confirmed
    else TenureStatus.probation

-- The number of months credited; the program multiplies it by the days a month gives.
accrued_months : Date → Date → ℕ
accrued_months accrual_start today =
    if date_ltb today accrual_start
    then 0
    else min (months_completed accrual_start today + 1) months_in_year

-- Units are counted in hundredths of a day, the precision of the stored figure.
pub accrued_units : Date → Date → ℕ → ℕ
unfolding accrued_months
accrued_units accrual_start today per_month = accrued_months accrual_start today * per_month

abbrev pub leave_year_start_month : ℕ
leave_year_start_month = 4

unfoldable pub leave_year_window : Date → Date × Date
leave_year_window today =
    let year = if leb leave_year_start_month today.month then today.year else today.year - 1 in
    (date year leave_year_start_month 1, prev_day (date (year + 1) leave_year_start_month 1))
