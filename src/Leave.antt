-- ===== src/Leave.antt =====
-- Leave requests: app/models/leave.py, app/services/leave_rules.py, and the queries of
-- app/repositories/leave.py. A leave's bounds are the UTC dates of its stored instants: every query
-- and rule reads them only as such dates.
pub mod Balance
pub mod Desk
pub mod Handlers
mod Writes
mod History
mod Clash
mod Years
mod Windows
mod Spent
mod Quota
mod Permissions
mod Released
mod Tests
mod Bookings
use Prim.Native.String.{String}
use avora_be.Prelude.{
  ℕ, ◌*◌, ◌+◌, Bool, true, false, not, ◌&&◌, ◌||◌, Option, none, some, List, [], ◌∷◌, any, ◌==◌,
  if◌then◌else◌, opt_eq,
}
use avora_be.Prelude.Dict.{Dict, lookup}
use avora_be.Calendar.{Date, date_leb, date_max, date_min}
use avora_be.Auth.{CurrentUser, Role, is_hr}
use avora_be.Staff.{Employee, manager_of, same_department}
use avora_be.Payroll.WorkDays.{working_days_between}

pub data LeaveType : Type 0 where
  planned annual sick bereavement birthday maternity paternity marriage unpaid half_day : LeaveType

pub data HalfDayPeriod : Type 0 where
  first_half second_half : HalfDayPeriod

pub data LeaveStatus : Type 0 where
  draft submitted approved rejected cancelled withdrawn : LeaveStatus

pub data WithdrawalStatus : Type 0 where
  not_asked requested granted declined : WithdrawalStatus

pub record Leave : Type 0 where
  pub employee_id : ℕ
  pub leave_type : LeaveType
  pub half_day_period : Option HalfDayPeriod
  pub start_date : Date
  pub end_date : Date
  pub reason : Option String
  pub status : LeaveStatus
  pub reviewer_id : Option ℕ
  pub decided_at : Option ℕ
  pub decision_note : Option String
  pub withdrawal_status : WithdrawalStatus
  pub withdrawal_reason : Option String
  pub withdrawal_requested_at : Option ℕ
  pub withdrawal_reviewer_id : Option ℕ
  pub withdrawal_decided_at : Option ℕ
  pub withdrawal_decision_note : Option String

-- The place of a type in its list; two types are equal where the places are.
abbrev pub type_code : LeaveType → ℕ
type_code LeaveType.planned = 0
type_code LeaveType.annual = 1
type_code LeaveType.sick = 2
type_code LeaveType.bereavement = 3
type_code LeaveType.birthday = 4
type_code LeaveType.maternity = 5
type_code LeaveType.paternity = 6
type_code LeaveType.marriage = 7
type_code LeaveType.unpaid = 8
type_code LeaveType.half_day = 9

abbrev pub is_half_day : LeaveType → Bool
is_half_day LeaveType.half_day = true
is_half_day _ = false

abbrev pub is_submitted : LeaveStatus → Bool
is_submitted LeaveStatus.submitted = true
is_submitted _ = false

abbrev pub is_approved : LeaveStatus → Bool
is_approved LeaveStatus.approved = true
is_approved _ = false

abbrev pub is_requested : WithdrawalStatus → Bool
is_requested WithdrawalStatus.requested = true
is_requested _ = false

-- Who may decide a request: the requester's manager or HR, never the requester.
abbrev pub may_decide : CurrentUser → Leave → Option ℕ → Bool
may_decide caller leave manager =
    if caller.employee_id == leave.employee_id
    then false
    else is_hr caller.role || opt_eq manager caller.employee_id

abbrev pub can_decide_now : CurrentUser → Leave → Option ℕ → Bool
can_decide_now caller leave manager = is_submitted leave.status && may_decide caller leave manager

-- Who may cancel an approved leave outright; the owner may not.
abbrev pub may_cancel_approved : CurrentUser → Leave → Option ℕ → Bool
may_cancel_approved caller leave manager =
    if not (is_approved leave.status) || caller.employee_id == leave.employee_id
    then false
    else is_hr caller.role || opt_eq manager caller.employee_id

-- Nothing asked yet, or asked and declined.
abbrev pub may_ask : WithdrawalStatus → Bool
may_ask WithdrawalStatus.not_asked = true
may_ask WithdrawalStatus.declined = true
may_ask _ = false

abbrev pub may_request_withdrawal : CurrentUser → Leave → Bool
may_request_withdrawal caller leave =
    is_approved leave.status
    && caller.employee_id == leave.employee_id
    && may_ask leave.withdrawal_status

abbrev pub may_decide_withdrawal : CurrentUser → Leave → Option ℕ → Bool
may_decide_withdrawal caller leave manager =
    is_requested leave.withdrawal_status && may_decide caller leave manager

-- In hundredths of a day.
abbrev pub leave_weight : LeaveType → ℕ
leave_weight t = if is_half_day t then 50 else 100

-- Hundredths of a day that a leave spends in a window of dates.
unfoldable pub days_in_window : LeaveType → Date × Date → Date × Date → List Date → ℕ → ℕ
days_in_window t (s, e) (first, last) holidays per_week =
    working_days_between (date_max first s) (date_min last e) holidays per_week * leave_weight t

abbrev pub same_half : Option HalfDayPeriod → Option HalfDayPeriod → Bool
same_half (some HalfDayPeriod.first_half) (some HalfDayPeriod.second_half) = false
same_half (some HalfDayPeriod.second_half) (some HalfDayPeriod.first_half) = false
same_half _ _ = true

-- Leaves whose dates meet collide, but for two different halves of a day.
abbrev pub clashes : Leave → LeaveType → Option HalfDayPeriod → Bool
clashes old t half =
    if is_half_day old.leave_type && is_half_day t then same_half old.half_day_period half else true

-- `Leave.start_date <= end AND Leave.end_date >= start`, on the dates.
abbrev pub meets : Leave → Date → Date → Bool
meets old first last = date_leb old.start_date last && date_leb first old.end_date

-- The statuses that a check looks at: on approval approved leave only.
abbrev pub is_booking : Bool → LeaveStatus → Bool
is_booking at_approval LeaveStatus.approved = true
is_booking at_approval LeaveStatus.submitted = not at_approval
is_booking at_approval _ = false

-- `overlapping`, as the test of one row.
abbrev pub overlaps : ℕ → Date → Date → Bool → Option ℕ → ℕ → Leave → Bool
overlaps who first last at_approval exclude k old =
    old.employee_id == who
    && is_booking at_approval old.status
    && meets old first last
    && not (opt_eq exclude k)

-- The clause of `_scope_clause` for each role, apart from HR's and the reviewer's.
abbrev by_role : Role → ℕ → Dict Employee → Leave → Bool
by_role Role.senior_manager me es leave =
    same_department (lookup leave.employee_id es) (lookup me es)
by_role Role.viewer me es leave = leave.employee_id == me
by_role _ me es leave =
    leave.employee_id == me || opt_eq (manager_of (lookup leave.employee_id es)) me

-- `_scope_clause`
abbrev pub in_scope : CurrentUser → Dict Employee → Leave → Bool
in_scope caller es leave =
    if is_hr caller.role
    then true
    else opt_eq leave.reviewer_id caller.employee_id
      || by_role caller.role caller.employee_id es leave
