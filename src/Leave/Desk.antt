-- ===== src/Leave/Desk.antt =====
-- The handlers of app/services/leave_service.py that write. `today` is the org's date, `now` the
-- clock's reading, and a new leave's identifier is an argument of `apply`. Mail is left out: it is
-- best effort and changes nothing here.
use Prim.Native.String.{String}
use avora_be.Prelude.{
  ℕ, suc, ◌+◌, Bool, true, false, not, ◌&&◌, Option, none, some, List, [], ◌∷◌, any, ltb, leb, ◌==◌,
  if◌then◌else◌, is_some,
}
use avora_be.Prelude.Dict.{Dict, any_rows}
use avora_be.Prelude.Service.{AppError, Service, ◌>>=◌, ◌>>◌, raise_if, gets}
use avora_be.Calendar.{Date, date, to_ordinal, month_length}
use avora_be.Staff.{Employee, Gender}
use avora_be.Notice.{AuditEntry, Message}
use avora_be.Leave.{
  Leave, LeaveType, LeaveStatus, WithdrawalStatus, HalfDayPeriod, type_code, is_half_day,
  days_in_window, clashes, overlaps,
}
use avora_be.Leave.Balance.{
  LeavePolicy, LeaveAllocation, TierQuota, Book, quota_bucket, balance_row, leave_year_windows,
}

pub data Action : Type 0 where
  applying withdrawing cancelling requesting_withdrawal : Action
  deciding : LeaveStatus → Action
  deciding_withdrawal : WithdrawalStatus → Action

pub data Title : Type 0 where
  to_approve leave_approved leave_rejected your_leave_cancelled an_approved_leave_cancelled
        asked_to_withdraw leave_withdrawn withdrawal_declined :
      Title

pub record Db : Type 0 where
  pub leaves : Dict Leave
  pub employees : Dict Employee
  pub policy : LeavePolicy
  pub allocations : Dict LeaveAllocation
  pub tiers : List TierQuota
  pub holidays : List Date
  pub per_week : ℕ
  pub released : List ℕ
  pub audit : List (AuditEntry Action)
  pub messages : List (Message Title)

pub record LeaveCreate : Type 0 where
  pub leave_type : LeaveType
  pub start_date : Date
  pub end_date : Date
  pub half_day_period : Option HalfDayPeriod
  pub reason : Option String

pub record LeaveDecision : Type 0 where
  pub approve : Bool
  pub note : Option String

-- `_Request`
pub record Request : Type 0 where
  pub leave_type : LeaveType
  pub start : Date
  pub end : Date
  pub half_day : Option HalfDayPeriod

abbrev pub from_create : LeaveCreate → Request
from_create p = record {
  leave_type = p.leave_type;
  start = p.start_date;
  end = p.end_date;
  half_day = p.half_day_period;
}

abbrev pub from_leave : Leave → Request
from_leave l = record {
  leave_type = l.leave_type;
  start = l.start_date;
  end = l.end_date;
  half_day = l.half_day_period;
}

abbrev pub book_of : Db → Book
book_of db = record {
  leaves = db.leaves;
  policy = db.policy;
  allocations = db.allocations;
  tiers = db.tiers;
  holidays = db.holidays;
  per_week = db.per_week;
}

-- `_enforce_not_past` refuses: the start is before the backdating window.
unfoldable pub is_past : Db → Date → Date → Bool
is_past db today start = ltb (to_ordinal start + db.policy.max_backdate_days) (to_ordinal today)

abbrev needs_notice : LeaveType → Bool
needs_notice LeaveType.planned = true
needs_notice LeaveType.annual = true
needs_notice _ = false

-- `_enforce_min_notice` refuses: not begun yet, and fewer days ahead than required.
unfoldable pub is_short_notice : Db → Date → LeaveCreate → Bool
is_short_notice db today p =
    needs_notice p.leave_type
    && leb (to_ordinal today) (to_ordinal p.start_date)
    && ltb (to_ordinal p.start_date) (to_ordinal today + db.policy.planned_min_notice_days)

abbrev is_female : Option Gender → Bool
is_female (some Gender.female) = true
is_female _ = false

abbrev is_male : Option Gender → Bool
is_male (some Gender.male) = true
is_male _ = false

abbrev born_in : Option Date → ℕ → Bool
born_in none m = false
born_in (some d) m = m == d.month

-- `_enforce_eligibility` refuses.
unfoldable pub is_ineligible : Employee → LeaveType → Date → Bool
is_ineligible e LeaveType.maternity start = not (is_female e.gender)
is_ineligible e LeaveType.paternity start = not (is_male e.gender)
is_ineligible e LeaveType.birthday start = not (born_in e.date_of_birth start.month)
is_ineligible e _ start = false

-- Some overlapping leave of the same person collides with the request.
abbrev pub any_clash : Request → ℕ → Bool → Option ℕ → Dict Leave → Bool
any_clash r who at_approval exclude = any_rows (λ k old.
    overlaps who r.start r.end at_approval exclude k old && clashes old r.leave_type r.half_day)

-- `len([row for row in booked if row.leave_type is HALF_DAY])`
abbrev pub half_days_booked : ℕ → Date → Date → Bool → Dict Leave → ℕ
half_days_booked who first last at_approval [] = 0
half_days_booked who first last at_approval ((k, old) ∷ ls) =
    let rest = half_days_booked who first last at_approval ls in
    if overlaps who first last at_approval none k old && is_half_day old.leave_type
    then suc rest
    else rest

abbrev pub probation_half_days_per_month : ℕ
probation_half_days_per_month = 2

-- `_enforce_probation_half_day_cap` refuses: the request's month already holds its half days.
unfoldable pub is_over_cap : Db → ℕ → Request → Bool → Bool
is_over_cap db who r at_approval =
    is_half_day r.leave_type
    && leb probation_half_days_per_month (
        half_days_booked who (date r.start.year r.start.month 1)
          (date r.start.year r.start.month (month_length r.start.year r.start.month)) at_approval
          db.leaves)

-- `_enforce_year_balance` refuses the part of a request in one leave year: on approval pending leave
-- is not counted.
unfoldable pub is_over_balance :
    Db → ℕ → Employee → Date → Request → LeaveType → Bool → Date × Date → Bool
unfolding is_over_cap
is_over_balance db who e today r bucket at_approval window =
    let row = balance_row (book_of db) who e today window.0 bucket in
    if row.eligible
    then ltb row.allocated (
        days_in_window r.leave_type (r.start, r.end) window db.holidays db.per_week
        + row.used
        + (if at_approval then 0 else row.pending))
    else if type_code r.leave_type == type_code bucket
    then true
    else is_over_cap db who r at_approval

-- `_enforce_balance` refuses, in some leave year that the request touches.
unfoldable pub is_unaffordable : Db → ℕ → Employee → Date → Request → Bool → Bool
unfolding is_over_balance
is_unaffordable db who e today r at_approval = elim (quota_bucket r.leave_type) [
  | none ↦ false
  | some bucket ↦
      any (is_over_balance db who e today r bucket at_approval) (leave_year_windows r.start r.end)
]

-- `_enforce_leave_rules`: `exclude_id` is the leave that is being approved.
abbrev pub enforce_leave_rules : ℕ → Employee → Date → Request → Option ℕ → Service Db (Unit {0})
enforce_leave_rules who e today r exclude = do
  raise_if (is_ineligible e r.leave_type r.start) AppError.validation_error
  clash ← gets (λ db. any_clash r who (is_some exclude) exclude db.leaves)
  raise_if clash AppError.validation_error
  over ← gets (λ db. is_unaffordable db who e today r (is_some exclude))
  raise_if over AppError.validation_error
