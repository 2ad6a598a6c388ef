-- ===== src/Resignation.antt =====
-- Resignations: app/models/resignation.py, app/repositories/resignation.py and
-- app/services/resignation_service.py. The identifier of a new row is an argument of `submit`, the
-- clock one of `decide`; mails change no row.
mod History
mod Final
mod Tests
use Prim.Native.String.{String}
use avora_be.Prelude.{
  ℕ, Bool, true, false, not, ◌&&◌, ◌||◌, Option, none, some, List, [], ◌∷◌, ◌++◌, ◌==◌,
  if◌then◌else◌, opt_eq,
}
use avora_be.Prelude.Dict.{Dict, lookup, insert, any_rows}
use avora_be.Prelude.Service.{
  AppError, Service, ◌>>=◌, ◌>>◌, return, raise_if, or_raise, gets, modify,
}
use avora_be.Calendar.{Date}
use avora_be.Auth.{CurrentUser, Role, is_hr, is_admin_role}
use avora_be.Notice.{AuditEntry, Message, append_entry, notify}
use avora_be.Staff.{Employee, list_hr, manager_of}
use avora_be.Staff.Scope.{member, list_admins}

pub data ResignationStatus : Type 0 where
  submitted accepted rejected withdrawn : ResignationStatus

pub record Resignation : Type 0 where
  pub employee_id : ℕ
  pub reason : Option String
  pub last_working_day : Date
  pub status : ResignationStatus
  pub reviewer_id : Option ℕ
  pub decided_at : Option ℕ
  pub decision_note : Option String

pub record ResignationCreate : Type 0 where
  pub reason : Option String
  pub last_working_day : Date

pub record ResignationDecision : Type 0 where
  pub accept : Bool
  pub note : Option String

pub data Action : Type 0 where
  submitting withdrawing : Action
  deciding : ResignationStatus → Action

pub data Title : Type 0 where
  to_review from_your_team was_accepted was_declined : Title

pub record Db : Type 0 where
  pub rows : Dict Resignation
  pub employees : Dict Employee
  pub audit : List (AuditEntry Action)
  pub messages : List (Message Title)

abbrev pub is_submitted : ResignationStatus → Bool
is_submitted ResignationStatus.submitted = true
is_submitted _ = false

-- `_can_review`
abbrev pub can_review : CurrentUser → Bool
can_review caller = is_admin_role caller.role || is_hr caller.role

abbrev is_viewer : Role → Bool
is_viewer Role.viewer = true
is_viewer _ = false

-- `_scope_clause`, for one row.
unfoldable pub in_scope : CurrentUser → Dict Employee → Resignation → Bool
in_scope caller es row =
    can_review caller
    || row.employee_id == caller.employee_id
    || not (is_viewer caller.role)
      && opt_eq (manager_of (lookup row.employee_id es)) caller.employee_id

-- `has_active`
abbrev pub has_active : ℕ → Dict Resignation → Bool
has_active who rows = any_rows (λ k r. r.employee_id == who && is_submitted r.status) rows

-- `read_for`: the reason and the note are for the employee and those who decide.
unfoldable pub read_for : CurrentUser → Resignation → Resignation
read_for caller row =
    if can_review caller || caller.employee_id == row.employee_id
    then row
    else record row { reason = none; decision_note = none }

-- The loop over the reviewers: each once, and not the caller.
abbrev pub tell_each : List ℕ → ℕ → ℕ → List ℕ → List (Message Title) → List (Message Title)
tell_each [] k who seen ms = ms
tell_each (to ∷ rest) k who seen ms =
    if member to seen
    then tell_each rest k who seen ms
    else tell_each rest k who (to ∷ seen) (notify to Title.to_review k (some who) ms)

abbrev is_active_row : Option Employee → Bool
is_active_row none = false
is_active_row (some e) = e.is_active

-- `_notify_manager`
abbrev pub tell_manager :
    Option ℕ → ℕ → ℕ → List ℕ → Dict Employee → List (Message Title) → List (Message Title)
tell_manager none k who told es ms = ms
tell_manager (some m) k who told es ms =
    if member m told || not (is_active_row (lookup m es))
    then ms
    else notify m Title.from_your_team k (some who) ms

abbrev pub tell_of : CurrentUser → ℕ → Dict Employee → List (Message Title) → List (Message Title)
tell_of caller k es ms =
    let reviewers = list_admins es ++ list_hr es in
    tell_manager caller.manager_id k caller.employee_id (caller.employee_id ∷ reviewers) es
      (tell_each reviewers k caller.employee_id (caller.employee_id ∷ []) ms)

-- The write of a row, its audit line and the messages about it.
abbrev save :
    ℕ
    → Resignation
    → ℕ
    → Action
    → (List (Message Title) → List (Message Title))
    → Service Db (Unit {0})
save k row who act tell = modify λ db. record db {
  rows = insert k row db.rows;
  audit = append_entry who act k db.audit;
  messages = tell db.messages;
}

abbrev pub new_row : ℕ → ResignationCreate → Resignation
new_row who p = record {
  employee_id = who;
  reason = p.reason;
  last_working_day = p.last_working_day;
  status = ResignationStatus.submitted;
  reviewer_id = none;
  decided_at = none;
  decision_note = none;
}

unfoldable pub submit : CurrentUser → ResignationCreate → ℕ → Service Db Resignation
submit caller p k = do
  taken ← gets (λ db. has_active caller.employee_id db.rows)
  raise_if taken AppError.conflict_error
  es ← gets (λ db. db.employees)
  save k (new_row caller.employee_id p) caller.employee_id Action.submitting (tell_of caller k es)
  return (new_row caller.employee_id p)

-- `get_in_scope`, or "not found".
unfoldable pub find_row : CurrentUser → ℕ → Service Db Resignation
find_row caller k = do
  found ← gets (λ db. lookup k db.rows)
  row ← or_raise found AppError.not_found_error
  seen ← gets (λ db. in_scope caller db.employees row)
  raise_if (not seen) AppError.not_found_error
  return row

abbrev pub decided : CurrentUser → ResignationDecision → ℕ → Resignation → Resignation
decided caller p now row = record row {
  status = if p.accept then ResignationStatus.accepted else ResignationStatus.rejected;
  reviewer_id = some caller.employee_id;
  decided_at = some now;
  decision_note = p.note;
}

unfoldable pub decide : CurrentUser → ℕ → ResignationDecision → ℕ → Service Db Resignation
decide caller k p now = do
  row ← find_row caller k
  raise_if (not (can_review caller) || caller.employee_id == row.employee_id)
      AppError.authorization_error
  raise_if (not (is_submitted row.status)) AppError.conflict_error
  let row' = decided caller p now row
  save k row' caller.employee_id (Action.deciding row'.status) (
      notify row.employee_id (if p.accept then Title.was_accepted else Title.was_declined) k
        (some caller.employee_id))
  return row'

abbrev pub taken_back : Resignation → Resignation
taken_back row = record row { status = ResignationStatus.withdrawn }

unfoldable pub withdraw : CurrentUser → ℕ → Service Db Resignation
withdraw caller k = do
  row ← find_row caller k
  raise_if (not (row.employee_id == caller.employee_id)) AppError.authorization_error
  raise_if (not (is_submitted row.status)) AppError.conflict_error
  save k (taken_back row) caller.employee_id Action.withdrawing (λ ms. ms)
  return (taken_back row)
