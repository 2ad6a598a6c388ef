-- ===== src/Payroll/WorkDays/Tests.antt =====
-- The working calendar on concrete dates, and the theorems at inputs that meet their hypotheses.
use avora_be.Prelude.{◌≡◌, refl, []}
use avora_be.Calendar.{
  date, to_ordinal, weekday, next_day, date_ltb, month_length, is_leap, days_before_year,
  days_before_month,
}
use avora_be.Payroll.WorkDays.{working_days_between, is_working_day}

calendar : Unit {0}
unfolding to_ordinal weekday next_day date_ltb month_length is_leap days_before_year
    days_before_month
calendar = tt

-- Friday to Monday is two days of leave.
friday_to_monday : working_days_between (date 2026 9 4) (date 2026 9 7) [] 5 ≡ 2
unfolding calendar working_days_between is_working_day
friday_to_monday = refl
