-- ===== src/Leave/Tests.antt =====
-- Two colleagues' leave from request to payroll, and the theorems on it.
use avora_be.Prelude.{
  ℕ, ◌≡◌, refl, true, false, Option, none, some, List, [], ◌∷◌, arith, any, ◌==◌,
}
use avora_be.Prelude.Dict.{Dict}
use avora_be.Prelude.Service.{Result, ok, err}
use avora_be.Calendar.{
  date, is_leap, month_length, days_before_year, days_before_month, to_ordinal, weekday, date_ltb,
  next_day, prev_day,
}
use avora_be.Auth.{CurrentUser, Role}
use avora_be.Staff.{Employee}
use avora_be.Payroll.WorkDays.{working_days_between, is_working_day}
use avora_be.Tenure.{leave_year_window}
use avora_be.Leave.{Leave, LeaveType, LeaveStatus, HalfDayPeriod, clashes, days_in_window}
use avora_be.Leave.Balance.{
  LeavePolicy, leave_year_windows, months_between, month_loop, window_loop, balance_row, tier_on,
}
use avora_be.Leave.Desk.{
  Db, LeaveCreate, LeaveDecision, is_past, is_short_notice, is_ineligible, is_unaffordable,
  is_over_balance, is_over_cap,
}
use avora_be.Leave.Handlers.{new_leave, apply, decide, decision_rules, finish_decision}
use avora_be.Leave.History.{Step, Run}
use avora_be.Leave.Bookings.{never_double_booked}
use avora_be.Leave.Released.{Settled, Run-Settled}

abbrev staff : Role → Option ℕ → Employee
staff r m = record {
  role = r;
  manager_id = m;
  department = some 1;
  payroll_manager = false;
  is_active = true;
  gender = none;
  date_of_birth = none;
  hire_date = some (date 2020 1 6);
  created_on = date 2020 1 6;
  probation_months = none;
}

abbrev user : ℕ → Role → CurrentUser
user n r = record { employee_id = n; role = r; manager_id = some 2; payroll_manager = false }

abbrev policy : LeavePolicy
policy = record {
  annual_planned_days = 8;
  annual_sick_days = 6;
  annual_days = 6;
  bereavement_days = 3;
  birthday_days = 1;
  maternity_days = 90;
  paternity_days = 7;
  marriage_days = 5;
  probation_months = 6;
  planned_min_notice_days = 2;
  max_backdate_days = 0;
}

abbrev sick_day : Option HalfDayPeriod → LeaveType → LeaveStatus → Leave
sick_day half t s =
    record (new_leave
      (record {
        leave_type = t;
        start_date = date 2026 10 5;
        end_date = date 2026 10 5;
        half_day_period = half;
        reason = none;
      })
      (user 1 Role.executive)) { status = s }

abbrev with_leaves : Dict Leave → List ℕ → Db
with_leaves ls out = record {
  leaves = ls;
  employees = (1, staff Role.executive (some 2)) ∷ (2, staff Role.manager none) ∷ [];
  policy = policy;
  allocations = [];
  tiers = [];
  holidays = [];
  per_week = 5;
  released = out;
  audit = [];
  messages = [];
}

-- A request on file, and the same one approved.
abbrev asked : Db
asked = with_leaves ((7, sick_day none LeaveType.sick LeaveStatus.submitted) ∷ []) []

abbrev taken : Db
taken = with_leaves ((7, sick_day none LeaveType.sick LeaveStatus.approved) ∷ []) (202610 ∷ [])

frozen_october :
    any (λ m. any (◌==◌ m) (202610 ∷ [])) (months_between (date 2026 10 5) (date 2026 10 5)) ≡ true
unfolding months_between month_loop
frozen_october = refl

Run-Settled_example : Settled 7 1 LeaveType.sick (date 2026 10 5) (date 2026 10 5) taken
Run-Settled_example =
    Run-Settled 7 1 LeaveType.sick (date 2026 10 5) (date 2026 10 5) {db = taken}
      (Run.next Run.done (Step.others refl (λ m h. h)))
      (record {
        row = sick_day none LeaveType.sick LeaveStatus.approved;
        at = refl;
        status = refl;
        owner = refl;
        kind = refl;
        start = refl;
        end = refl;
        frozen = frozen_october;
      })

calendar : Unit {0}
unfolding to_ordinal weekday next_day prev_day date_ltb month_length is_leap days_before_year
    days_before_month
calendar = tt

abbrev after : Result (Leave × Db) → Db → Db
after (ok (r, db')) db = db'
after (err e) db = db

abbrev row_of : Result (Leave × Db) → Leave → Leave
row_of (ok (r, db')) l = r
row_of (err e) l = l

-- A morning and an afternoon off on the same day, applied for and approved.
abbrev half_off : HalfDayPeriod → LeaveCreate
half_off h = record {
  leave_type = LeaveType.half_day;
  start_date = date 2026 10 5;
  end_date = date 2026 10 5;
  half_day_period = some h;
  reason = none;
}

abbrev grant : LeaveDecision
grant = record { approve = true; note = none }

abbrev empty : Db
empty = with_leaves [] []

abbrev first : Result (Leave × Db)
first = apply (user 1 Role.executive) (half_off HalfDayPeriod.first_half) (date 2026 10 1) 7 empty

abbrev second : Result (Leave × Db)
second =
    apply (user 1 Role.executive) (half_off HalfDayPeriod.second_half) (date 2026 10 1) 8
      (after first empty)

abbrev third : Result (Leave × Db)
third = decide (user 2 Role.manager) 7 grant (date 2026 10 1) 100 (after second empty)

abbrev fourth : Result (Leave × Db)
fourth = decide (user 2 Role.manager) 8 grant (date 2026 10 1) 200 (after third empty)

abbrev off : Leave
off = sick_day none LeaveType.sick LeaveStatus.rejected

leave_rules : Unit {0}
unfolding calendar apply decide decision_rules finish_decision is_past is_short_notice is_ineligible
    is_unaffordable
leave_rules = tt

both_halves : Run empty (after fourth empty)
unfolding leave_rules working_days_between is_working_day leave_year_window is_over_balance
    is_over_cap balance_row tier_on leave_year_windows window_loop days_in_window
both_halves =
    Run.next
      (Run.next
        (Run.next
          (Run.next Run.done (
            Step.applies (user 1 Role.executive) (half_off HalfDayPeriod.first_half)
              (date 2026 10 1) 7 {r = row_of first off} refl refl))
          (Step.applies (user 1 Role.executive) (half_off HalfDayPeriod.second_half)
            (date 2026 10 1) 8 {r = row_of second off} refl refl))
        (Step.decides (user 2 Role.manager) 7 grant (date 2026 10 1) 100 {r = row_of third off}
          refl))
      (Step.decides (user 2 Role.manager) 8 grant (date 2026 10 1) 200 {r = row_of fourth off} refl)

never_double_booked_example :
    clashes (row_of third off) (row_of fourth off).leave_type (row_of fourth off).half_day_period
    ≡ false
unfolding leave_rules working_days_between is_working_day leave_year_window is_over_balance
    is_over_cap balance_row tier_on leave_year_windows window_loop days_in_window
never_double_booked_example =
    never_double_booked 7 8 {a = row_of third off} {b = row_of fourth off} refl both_halves
      (omega arith) refl refl refl refl refl refl
