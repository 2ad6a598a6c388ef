-- ===== src/Regularization.antt =====
-- Attendance fixes: app/models/regularization.py, app/repositories/regularization.py and
-- app/services/regularization_service.py. A day is the number YYYYMMDD of its key "YYYY-MM-DD", as
-- the schema's pattern admits it, and a month that of its first seven characters; the fresh
-- identifier of a request is the argument of `request`.
mod Counting
mod Writes
mod History
mod Credits
mod Review
mod Tests
use Prim.Native.String.{String}
use avora_be.Prelude.{
  ℕ, suc, ◌/◌, Bool, true, false, not, ◌&&◌, ◌||◌, Option, none, some, List, [], ◌∷◌, ◌++◌, ltb,
  leb, ◌==◌, if◌then◌else◌, is_some, opt_eq,
}
use avora_be.Prelude.Service.{
  AppError, ok, err, Service, ◌>>=◌, ◌>>◌, return, raise_if, or_raise, gets, modify,
}
use avora_be.Prelude.Dict.{Dict, lookup, insert, any_rows}
use avora_be.Auth.{CurrentUser, is_hr}
use avora_be.Notice.{AuditEntry, Message, append_entry, notify}
use avora_be.Staff.{Employee, list_hr, manager_of}
use avora_be.Staff.Scope.{member, can_read, list_admins}
use avora_be.Attendance.{PolicySpec}

pub data RegularizationStatus : Type 0 where
  pending approved rejected : RegularizationStatus

pub record Regularization : Type 0 where
  pub employee_id : ℕ
  pub day : ℕ
  pub reason : Option String
  pub status : RegularizationStatus
  pub reviewed_by_id : Option ℕ
  pub review_note : Option String

pub record RegularizationCreate : Type 0 where
  pub day : ℕ
  pub reason : Option String

pub record RegularizationReview : Type 0 where
  pub approve : Bool
  pub review_note : Option String

pub data Action : Type 0 where
  requesting : ℕ → Action
  reviewing : RegularizationStatus → Action

pub data Title : Type 0 where
  fix_to_review fix_approved fix_rejected : Title

-- What the service reads and writes. There is no policy row before it is first read.
pub record Db : Type 0 where
  pub regs : Dict Regularization
  pub employees : Dict Employee
  pub policy : Option PolicySpec
  pub audit : List (AuditEntry Action)
  pub messages : List (Message Title)

abbrev pub is_pending : RegularizationStatus → Bool
is_pending RegularizationStatus.pending = true
is_pending _ = false

abbrev pub is_approved : RegularizationStatus → Bool
is_approved RegularizationStatus.approved = true
is_approved _ = false

-- A pending or approved request.
abbrev pub is_active : RegularizationStatus → Bool
is_active RegularizationStatus.rejected = false
is_active _ = true

-- `day[:7]`
abbrev pub month_of : ℕ → ℕ
month_of day = day / 100

-- `get_active_for_day`, is not None
abbrev pub has_active_for_day : ℕ → ℕ → Db → Bool
has_active_for_day who day db =
    any_rows (λ k r. r.employee_id == who && (r.day == day && is_active r.status)) db.regs

-- What `count_approved_in_month` counts.
abbrev pub spends_credit : ℕ → ℕ → Regularization → Bool
spends_credit who month r =
    r.employee_id == who && (is_approved r.status && month_of r.day == month)

abbrev pub count_rows : (Regularization → Bool) → Dict Regularization → ℕ
count_rows p [] = 0
count_rows p ((k, r) ∷ d) = if p r then suc (count_rows p d) else count_rows p d

abbrev pub count_approved_in_month : ℕ → ℕ → Dict Regularization → ℕ
count_approved_in_month who month d = count_rows (spends_credit who month) d

-- The columns' defaults, app/models/attendance_policy.py.
abbrev pub default_policy : PolicySpec
default_policy = record {
  work_start_minute = 540;
  work_end_minute = 1080;
  buffer_minutes = 15;
  regularization_window_minutes = 30;
  full_day_min_minutes = 480;
  half_day_min_minutes = 240;
  full_day_grace_minutes = 15;
  monthly_regularizations = 2;
  working_days_per_week = 5;
  timezone = "Asia/Kolkata";
  late_full_day_minutes = 480;
  monthly_late_allowance = 3;
}

-- `AttendancePolicyService.spec`: the row, or the default row, which is then kept.
unfoldable pub spec : Service Db PolicySpec
spec db = elim db.policy [
  | some p ↦ ok (p, db)
  | none ↦ ok (default_policy, record db { policy = some default_policy })
]

-- `list(dict.fromkeys(...))` over those that are not the caller.
abbrev pub others_once : List ℕ → ℕ → List ℕ → List ℕ
others_once seen me [] = []
others_once seen me (k ∷ ks) =
    if k == me || member k seen then others_once seen me ks else k ∷ others_once (k ∷ seen) me ks

abbrev pub is_active_row : Option Employee → Bool
is_active_row none = false
is_active_row (some e) = e.is_active

abbrev fallback : ℕ → Dict Employee → List ℕ
fallback me es = others_once [] me (list_hr es ++ list_admins es)

-- `_reviewers_for`
abbrev pub reviewers_for : CurrentUser → Dict Employee → List ℕ
reviewers_for caller es = elim caller.manager_id [
  | none ↦ fallback caller.employee_id es
  | some m ↦ if is_active_row (lookup m es) then m ∷ [] else fallback caller.employee_id es
]

abbrev notify_all : List ℕ → Title → ℕ → ℕ → List (Message Title) → List (Message Title)
notify_all [] subject k who ms = ms
notify_all (to ∷ rest) subject k who ms =
    notify_all rest subject k who (notify to subject k (some who) ms)

-- `_may_decide`
unfoldable pub may_decide : CurrentUser → Regularization → Option ℕ → Bool
may_decide caller reg requester_manager_id =
    if caller.employee_id == reg.employee_id
    then false
    else is_hr caller.role || opt_eq requester_manager_id caller.employee_id

-- The write of a row, its audit line and the messages about it.
abbrev save :
    ℕ
    → Regularization
    → ℕ
    → Action
    → (List (Message Title) → List (Message Title))
    → Service Db (Unit {0})
save k reg who act tell = modify λ db. record db {
  regs = insert k reg db.regs;
  audit = append_entry who act k db.audit;
  messages = tell db.messages;
}

abbrev pub new_reg : RegularizationCreate → ℕ → Regularization
new_reg p who = record {
  employee_id = who;
  day = p.day;
  reason = p.reason;
  status = RegularizationStatus.pending;
  reviewed_by_id = none;
  review_note = none;
}

unfoldable pub request : CurrentUser → RegularizationCreate → ℕ → Service Db Regularization
request caller p k = do
  taken ← gets (has_active_for_day caller.employee_id p.day)
  raise_if taken AppError.validation_error
  to ← gets (λ db. reviewers_for caller db.employees)
  let reg = new_reg p caller.employee_id
  save k reg caller.employee_id (Action.requesting p.day)
      (notify_all to Title.fix_to_review k caller.employee_id)
  return reg

-- An approval needs a credit of the month.
unfoldable pub spend_credit : Regularization → Service Db (Unit {0})
unfolding spec
spend_credit reg = do
  policy ← spec
  used ← gets (λ db. count_approved_in_month reg.employee_id (month_of reg.day) db.regs)
  raise_if (leb policy.monthly_regularizations used) AppError.validation_error

unfoldable pub review : CurrentUser → ℕ → RegularizationReview → Service Db Regularization
unfolding may_decide can_read spend_credit
review caller k p = do
  row ← gets (λ db. lookup k db.regs)
  reg ← or_raise row AppError.not_found_error
  seen ← gets (λ db. can_read caller db.employees reg.employee_id)
  raise_if (not seen) AppError.not_found_error
  raise_if (reg.employee_id == caller.employee_id) AppError.authorization_error
  manager ← gets (λ db. manager_of (lookup reg.employee_id db.employees))
  raise_if (not (may_decide caller reg manager)) AppError.authorization_error
  raise_if (not (is_pending reg.status)) AppError.validation_error
  if p.approve then spend_credit reg else return tt
  let reg' = record reg {
    status = if p.approve then RegularizationStatus.approved else RegularizationStatus.rejected;
    reviewed_by_id = some caller.employee_id;
    review_note = p.review_note;
  }
  save k reg' caller.employee_id (Action.reviewing reg'.status) (
      notify reg.employee_id (if p.approve then Title.fix_approved else Title.fix_rejected) k
        (some caller.employee_id))
  return reg'

-- The test that `decidable_ids` makes of one row.
abbrev pub decidable : CurrentUser → Db → Regularization → Bool
unfolding may_decide
decidable caller db reg =
    is_pending reg.status
    && may_decide caller reg (manager_of (lookup reg.employee_id db.employees))

-- `decidable_ids`
unfoldable pub decidable_ids : CurrentUser → Db → Dict Regularization → List ℕ
decidable_ids caller db [] = []
decidable_ids caller db ((k, reg) ∷ rows) =
    if decidable caller db reg
    then k ∷ decidable_ids caller db rows
    else decidable_ids caller db rows
