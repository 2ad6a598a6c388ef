-- ===== src/Leave/Spent.antt =====
-- What approved leave spends of a quota, against app/services/leave_service.py, `bucket` of
-- `_compute_balance`, and after one more approval.
use avora_be.Prelude.{
  ℕ, ◌+◌, ◌*◌, ◌≡◌, ◌≤◌, refl, subst, sym, Bool, true, false, ◌&&◌, Option, none, some, List, [],
  ◌∷◌, arith, ◌==◌, if◌then◌else◌, Bool-cases, inl, inr,
}
use avora_be.Prelude.Dict.{Dict, lookup, insert}
use avora_be.Calendar.{Date, date_ltb, date_leb, date_max, date_min}
use avora_be.Payroll.WorkDays.{working_days_between}
use avora_be.Leave.{
  Leave, LeaveType, LeaveStatus, type_code, leave_weight, is_approved, days_in_window, meets,
}
use avora_be.Leave.Balance.{quota_bucket, spends, spent}

-- The leave is drawn from this quota.
abbrev pub draws : Option LeaveType → LeaveType → Bool
draws none bucket = false
draws (some t) bucket = type_code t == type_code bucket

-- A leave in this status was granted.
abbrev pub granted : LeaveStatus → Bool
granted LeaveStatus.approved = true
granted LeaveStatus.draft = false
granted LeaveStatus.submitted = false
granted LeaveStatus.rejected = false
granted LeaveStatus.cancelled = false
granted LeaveStatus.withdrawn = false

-- Hundredths of a day for one working day.
abbrev pub day_weight : LeaveType → ℕ
day_weight LeaveType.half_day = 50
day_weight _ = 100

-- The working days of a leave inside a window, in hundredths.
abbrev pub days_inside : Leave → Date × Date → List Date → ℕ → ℕ
days_inside l window holidays per_week =
    day_weight l.leave_type
    * working_days_between (date_max window.0 l.start_date) (date_min window.1 l.end_date) holidays
        per_week

pub days_in_window-days_inside :
    (l : Leave) (window : Date × Date) (holidays : List Date) (per_week : ℕ)
    → days_in_window l.leave_type (l.start_date, l.end_date) window holidays per_week
      ≡ days_inside l window holidays per_week
unfolding days_in_window
days_in_window-days_inside l window holidays per_week =
    let weight : leave_weight l.leave_type ≡ day_weight l.leave_type = ground arith in
    rw weight (omega arith)

module _ (who : ℕ) (bucket : LeaveType) (window : Date × Date) (holidays : List Date)
    (per_week : ℕ) where
  -- The days of one leave inside the window, if it is an approved one of the person's that is drawn
  -- from the quota.
  abbrev pub days_of : Leave → ℕ
  days_of l =
      if l.employee_id == who && granted l.status && draws (quota_bucket l.leave_type) bucket
      then days_inside l window holidays per_week
      else 0

  -- Those of all leaves, added up.
  abbrev pub approved_days : Dict Leave → ℕ
  approved_days [] = 0
  approved_days ((k, l) ∷ ls) = days_of l + approved_days ls

  -- Another approval adds its days.
  pub approved_days-insert :
      (k : ℕ) (old new : Leave) (ls : Dict Leave)
      → lookup k ls ≡ some old
      → days_of old ≡ 0
      → approved_days (insert k new ls) ≡ days_of new + approved_days ls
  approved_days-insert k old new [] at none_yet = absurd (ground arith)
  approved_days-insert k old new ((j, l) ∷ ls) at none_yet = elim (Bool-cases (k == j)) [
    | inl e ↦
        let is : l ≡ old = ground (arith, e) in
        let zero_days : days_of l ≡ 0 = subst (λ x. days_of x ≡ 0) (sym is) none_yet in
        rw e (omega (arith, zero_days))
    | inr e ↦ rw e (omega (arith, approved_days-insert k old new ls (ground (arith, e)) none_yet))
  ]

apart_early :
    (s e first last : Date)
    → date_leb s last ≡ false
    → date_ltb (date_min last e) (date_max first s) ≡ true
unfolding date_ltb
apart_early s e first last h = ground arith

apart_late :
    (s e first last : Date)
    → date_leb first e ≡ false
    → date_ltb (date_min last e) (date_max first s) ≡ true
unfolding date_ltb
apart_late s e first last h = ground arith

-- A leave that does not meet a window has no days in it.
days_apart :
    (l : Leave) (window : Date × Date) (holidays : List Date) (per_week : ℕ)
    → meets l window.0 window.1 ≡ false
    → days_in_window l.leave_type (l.start_date, l.end_date) window holidays per_week ≡ 0
unfolding days_in_window working_days_between
days_apart l window holidays per_week h = elim (Bool-cases (date_leb l.start_date window.1)) [
  | inl meeting ↦
      rw (apart_late l.start_date l.end_date window.0 window.1 (ground arith)) (omega arith)
  | inr late ↦ rw (apart_early l.start_date l.end_date window.0 window.1 late) (omega arith)
]

code_of_quota :
    (source bucket : LeaveType) → quota_bucket source ≡ some bucket → type_code bucket ≤ 7
code_of_quota source bucket h = ground arith

-- A quota that leave is drawn from is drawn from by the same leave types in the program's test.
spends-draws :
    (t source bucket : LeaveType)
    → quota_bucket source ≡ some bucket
    → spends t bucket ≡ draws (quota_bucket t) bucket
spends-draws t source bucket h = ground (arith, code_of_quota source bucket h)

is_approved-granted : (s : LeaveStatus) → is_approved s ≡ granted s
is_approved-granted s = ground arith

-- What `bucket` counts of approved leave is what there is.
pub spent-approved_days :
    (who : ℕ) (source bucket : LeaveType) (window : Date × Date) (holidays : List Date)
    (per_week : ℕ) (ls : Dict Leave)
    → quota_bucket source ≡ some bucket
    → spent is_approved bucket who window holidays per_week ls
      ≡ approved_days who bucket window holidays per_week ls
spent-approved_days who source bucket window holidays per_week [] h = refl
spent-approved_days who source bucket window holidays per_week ((k, l) ∷ ls) h =
    let rest = spent-approved_days who source bucket window holidays per_week ls h in
    ground (
      arith,
      rest,
      days_in_window-days_inside l window holidays per_week,
      days_apart l window holidays per_week,
      spends-draws l.leave_type source bucket h,
      is_approved-granted l.status,
    )
