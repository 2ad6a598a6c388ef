-- ===== src/Leave/Balance.antt =====
-- Entitlement and balance: `_compute_balance` and the checks around it in
-- app/services/leave_service.py, with app/models/leave_policy.py, leave_allocation.py and
-- leave_tier_quota.py. Days are counted in hundredths; the program holds them as floats, which are
-- exact on the halves that leaves spend.
use mathlib.Core.Option.{get_or}
use avora_be.Prelude.{
  ℕ, zero, suc, ◌+◌, ◌-◌, ◌*◌, min, Bool, true, false, not, ◌&&◌, ◌||◌, Option, none, some, List,
  [], ◌∷◌, ltb, leb, ◌==◌, if◌then◌else◌, is_some,
}
use avora_be.Prelude.Dict.{Dict, lookup}
use avora_be.Calendar.{Date, to_ordinal, date_leb, date_eq, date_max, date_min, next_day}
use avora_be.Staff.{Employee}
use avora_be.Tenure.{TenureStatus, probation_end, tenure_status, accrued_units, leave_year_window}
use avora_be.Leave.{
  Leave, LeaveType, LeaveStatus, type_code, is_half_day, days_in_window, is_submitted, is_approved,
  meets,
}

pub record LeavePolicy : Type 0 where
  pub annual_planned_days : ℕ
  pub annual_sick_days : ℕ
  pub annual_days : ℕ
  pub bereavement_days : ℕ
  pub birthday_days : ℕ
  pub maternity_days : ℕ
  pub paternity_days : ℕ
  pub marriage_days : ℕ
  pub probation_months : ℕ
  pub planned_min_notice_days : ℕ
  pub max_backdate_days : ℕ

-- One employee's own quotas, and what HR entered as taken before; by quota.
pub record LeaveAllocation : Type 0 where
  pub own_days : LeaveType → Option ℕ
  pub used_before : LeaveType → Option ℕ
  pub used_before_year_start : Option Date

pub record TierQuota : Type 0 where
  pub tier : TenureStatus
  pub leave_type : LeaveType
  pub annual_days : Option ℕ
  pub monthly_accrual_days : Option ℕ

-- `_TRACKED_LEAVE`: the quotas, in the order of the table.
abbrev pub tracked : List LeaveType
tracked =
    LeaveType.planned ∷ LeaveType.annual ∷ LeaveType.sick ∷ LeaveType.bereavement
    ∷ LeaveType.birthday ∷ LeaveType.maternity ∷ LeaveType.paternity ∷ LeaveType.marriage ∷ []

-- The policy column of a quota, in days; unpaid leave and half days have none of their own.
abbrev pub policy_days : LeaveType → LeavePolicy → ℕ
policy_days LeaveType.planned p = p.annual_planned_days
policy_days LeaveType.annual p = p.annual_days
policy_days LeaveType.sick p = p.annual_sick_days
policy_days LeaveType.bereavement p = p.bereavement_days
policy_days LeaveType.birthday p = p.birthday_days
policy_days LeaveType.maternity p = p.maternity_days
policy_days LeaveType.paternity p = p.paternity_days
policy_days LeaveType.marriage p = p.marriage_days
policy_days _ p = 0

-- `_quota_bucket`: a half day spends from planned leave; unpaid leave from nothing.
abbrev pub quota_bucket : LeaveType → Option LeaveType
quota_bucket LeaveType.half_day = some LeaveType.planned
quota_bucket LeaveType.unpaid = none
quota_bucket t = some t

-- The leave types whose days count against a quota.
abbrev pub spends : LeaveType → LeaveType → Bool
spends t bucket = type_code t == type_code bucket || is_half_day t && type_code bucket == 0

abbrev pub same_tier : TenureStatus → TenureStatus → Bool
same_tier TenureStatus.probation TenureStatus.probation = true
same_tier TenureStatus.confirmed TenureStatus.confirmed = true
same_tier TenureStatus.tenured TenureStatus.tenured = true
same_tier _ _ = false

-- `tier_rows.get(leave_type)`: of two rows for one type the later one is kept.
abbrev pub tier_row : TenureStatus → LeaveType → List TierQuota → Option TierQuota
tier_row tier t [] = none
tier_row tier t (r ∷ rs) =
    let later = tier_row tier t rs in
    if is_some later
    then later
    else if same_tier r.tier tier && type_code r.leave_type == type_code t
    then some r
    else none

-- `employee.probation_months or policy.probation_months`: a stored 0 counts as none.
abbrev pub probation_length : Option ℕ → ℕ → ℕ
probation_length none default = default
probation_length (some zero) default = default
probation_length (some (suc n)) default = suc n

-- The rows that the computation reads.
pub record Book : Type 0 where
  pub leaves : Dict Leave
  pub policy : LeavePolicy
  pub allocations : Dict LeaveAllocation
  pub tiers : List TierQuota
  pub holidays : List Date
  pub per_week : ℕ

-- `bucket`: what one person's leaves in a status spend of a quota inside a window.
abbrev pub spent :
    (LeaveStatus → Bool) → LeaveType → ℕ → Date × Date → List Date → ℕ → Dict Leave → ℕ
spent st bucket who window holidays per_week [] = 0
spent st bucket who window holidays per_week ((k, l) ∷ ls) =
    let rest = spent st bucket who window holidays per_week ls in
    if l.employee_id == who
      && st l.status
      && meets l window.0 window.1
      && spends l.leave_type bucket
    then days_in_window l.leave_type (l.start_date, l.end_date) window holidays per_week + rest
    else rest

-- The tenure band on a date; somebody without a hire date is tenured.
unfoldable pub tier_on : Option Date → Date → ℕ → TenureStatus
tier_on none as_of months = TenureStatus.tenured
tier_on (some hired) as_of months = tenure_status hired as_of months

-- The band's figure for a quota, else the policy's.
abbrev tier_quota : Option TierQuota → LeaveType → LeavePolicy → Date → Date → ℕ
tier_quota none bucket policy accrual_start as_of = policy_days bucket policy * 100
tier_quota (some r) bucket policy accrual_start as_of = elim r.monthly_accrual_days [
  | some per_month ↦
      min (accrued_units accrual_start as_of per_month)
        (get_or r.annual_days (policy_days bucket policy) * 100)
  | none ↦ get_or r.annual_days (policy_days bucket policy) * 100
]

-- `getattr(allocation, alloc_attr)` of an allocation that may be missing.
abbrev own_quota : Option LeaveAllocation → LeaveType → Option ℕ
own_quota none bucket = none
own_quota (some a) bucket = a.own_days bucket

-- `taken_before`: counted only in the leave year that HR entered it for; kept in tenths of a day.
abbrev pub taken_before : Option LeaveAllocation → LeaveType → Date → ℕ
taken_before none bucket year_start = 0
taken_before (some a) bucket year_start = elim a.used_before_year_start [
  | none ↦ 0
  | some y ↦ if date_eq y year_start then get_or (a.used_before bucket) 0 * 10 else 0
]

abbrev zero_days : Option ℕ → Bool
zero_days none = false
zero_days (some n) = n == 0

-- The band gives none of this quota yet, and there is no override.
abbrev not_yet : Option ℕ → Option TierQuota → Bool
not_yet (some n) row = false
not_yet none none = false
not_yet none (some r) = not (is_some r.monthly_accrual_days) && zero_days r.annual_days

pub record LeaveTypeBalance : Type 0 where
  pub leave_type : LeaveType
  pub allocated : ℕ
  pub used : ℕ
  pub pending : ℕ
  pub eligible : Bool

-- `_compute_balance` for one quota, in the leave year of `on`.
unfoldable pub balance_row : Book → ℕ → Employee → Date → Date → LeaveType → LeaveTypeBalance
unfolding tier_on
balance_row book who e today on bucket =
    let (year_start, year_end) = leave_year_window on in
    let as_of = date_min (date_max today year_start) year_end in
    let allocation = lookup who book.allocations in
    let months = probation_length e.probation_months book.policy.probation_months in
    let confirmed_on = probation_end (get_or e.hire_date e.created_on) months in
    let row = tier_row (tier_on e.hire_date as_of months) bucket book.tiers in
    let own = own_quota allocation bucket in
    record {
      leave_type = bucket;
      allocated = elim own [
        | some n ↦ n * 100
        | none ↦ tier_quota row bucket book.policy (date_max year_start confirmed_on) as_of
      ];
      used =
          spent is_approved bucket who (year_start, year_end) book.holidays book.per_week
            book.leaves
          + taken_before allocation bucket year_start;
      pending =
          spent is_submitted bucket who (year_start, year_end) book.holidays book.per_week
            book.leaves;
      eligible = not (not_yet own row);
    }

-- `_leave_year_windows`; the fuel is the number of days from `day` to `last`.
unfoldable pub window_loop : ℕ → Date → Date → List (Date × Date)
window_loop zero day last = []
window_loop (suc fuel) day last =
    let window = leave_year_window day in
    let rest = window_loop fuel (next_day window.1) last in
    if date_leb day last then window ∷ rest else []

unfoldable pub leave_year_windows : Date → Date → List (Date × Date)
unfolding window_loop
leave_year_windows first last = window_loop (to_ordinal last + 1 - to_ordinal first) first last

-- `_months_between`, each month as YYYYMM; the fuel is the number of months.
unfoldable pub month_loop : ℕ → ℕ → ℕ → Date → List ℕ
month_loop zero year month last = []
month_loop (suc fuel) year month last =
    let rest =
      if month == 12
      then month_loop fuel (year + 1) 1 last
      else month_loop fuel year (month + 1) last in
    if ltb year last.year || year == last.year && leb month last.month
    then (year * 100 + month) ∷ rest
    else []

unfoldable pub months_between : Date → Date → List ℕ
unfolding month_loop
months_between first last =
    month_loop (last.year * 12 + last.month + 1 - (first.year * 12 + first.month)) first.year
      first.month last
