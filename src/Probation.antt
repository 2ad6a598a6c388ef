-- ===== src/Probation.antt =====
-- Probation reviews: app/core/probation.py, app/models/probation_checklist.py,
-- app/models/probation_decision.py, app/repositories/probation_checklist.py and the checklist of
-- app/services/probation_service.py. The rows of a checklist are those of an employee by step
-- number; the clock is an argument. A note that Avora writes is told from a typed one by its
-- constructor.
mod Items
pub mod Desk
mod Writes
mod Outcome
mod Written
mod Window
mod History
mod Tests
use Prim.Native.String.{String}
use avora_be.Prelude.{
  ℕ, Bool, true, false, not, ◌&&◌, ◌||◌, Option, none, some, List, [], ◌∷◌, ◌==◌, if◌then◌else◌,
  is_some, opt_eq,
}
use avora_be.Prelude.Dict.{Dict, lookup, insert}
use avora_be.Prelude.Service.{
  AppError, Service, ◌>>=◌, ◌>>◌, return, raise_if, or_raise, gets, modify,
}
use avora_be.Calendar.{Date}
use avora_be.Auth.{CurrentUser, is_hr, is_admin_role}
use avora_be.Staff.{Employee}
use avora_be.Staff.Scope.{can_read}
use avora_be.Notice.{AuditEntry, append_entry}

pub data StepOwner : Type 0 where
  hr employee manager hr_and_manager : StepOwner

-- `STEPS_BY_NO`: the owners of the steps. There is no step 11.
abbrev pub steps : Dict StepOwner
steps =
    (1, StepOwner.hr)
    ∷ (2, StepOwner.hr)
    ∷ (3, StepOwner.employee)
    ∷ (4, StepOwner.hr)
    ∷ (5, StepOwner.manager)
    ∷ (6, StepOwner.manager)
    ∷ (7, StepOwner.hr_and_manager)
    ∷ (8, StepOwner.hr)
    ∷ (9, StepOwner.hr)
    ∷ (10, StepOwner.hr_and_manager)
    ∷ (12, StepOwner.hr)
    ∷ (13, StepOwner.hr)
    ∷ (14, StepOwner.employee)
    ∷ (15, StepOwner.hr)
    ∷ (16, StepOwner.hr)
    ∷ []

unfoldable pub step_or_none : ℕ → Option StepOwner
step_or_none nr = lookup nr steps

abbrev pub acknowledge_step : ℕ
acknowledge_step = 14

pub data StepStatus : Type 0 where
  pending finished skipped : StepStatus

pub data ProbationOutcome : Type 0 where
  confirmed extended terminated : ProbationOutcome

-- What Avora notes on a step, behind the prefix `SYSTEM_NOTE`.
pub data SystemNote : Type 0 where
  outcome_recorded : ProbationOutcome → SystemNote
  end_updated letter_emailed letter_prepared form_done : SystemNote

pub data Note : Type 0 where
  no_note acknowledged : Note
  typed : String → Note
  by_system : SystemNote → Note

pub record Item : Type 0 where
  pub status : StepStatus
  pub note : Note
  pub actor_id : Option ℕ
  pub acted_at : Option ℕ

pub record Decision : Type 0 where
  pub outcome : ProbationOutcome
  pub effective_date : Date
  pub job_title : Option String
  pub note : Option String
  pub original_end_date : Option Date
  pub expectations : Option (List String)
  pub decided_by : ℕ
  pub decided_at : ℕ
  pub letter_sent_at : Option ℕ

pub data Action : Type 0 where
  updating_step : ℕ → StepStatus → Action
  acknowledging : Action
  deciding : ProbationOutcome → Action

-- What the service reads and writes; `titles` is the column job_title of employees, and there is
-- no leave policy before it is first read.
pub record Db : Type 0 where
  pub items : ℕ → Dict Item
  pub decisions : Dict Decision
  pub employees : Dict Employee
  pub titles : ℕ → Option String
  pub default_months : Option ℕ
  pub audit : List (AuditEntry Action)

abbrev pub is_step_pending : StepStatus → Bool
is_step_pending StepStatus.pending = true
is_step_pending _ = false

abbrev pub is_terminated : ProbationOutcome → Bool
is_terminated ProbationOutcome.terminated = true
is_terminated _ = false

-- `_may_manage`
abbrev pub may_manage : CurrentUser → Bool
may_manage caller = is_admin_role caller.role || is_hr caller.role

-- `_may_update_step`
unfoldable pub may_update_step : CurrentUser → ℕ → Employee → StepOwner → Bool
may_update_step caller who e StepOwner.employee = caller.employee_id == who
may_update_step caller who e StepOwner.hr = may_manage caller
may_update_step caller who e StepOwner.manager =
    opt_eq e.manager_id caller.employee_id || may_manage caller
may_update_step caller who e StepOwner.hr_and_manager =
    opt_eq e.manager_id caller.employee_id || may_manage caller

-- `_visible_employee`: nobody sees their own review.
unfoldable pub visible_employee : CurrentUser → ℕ → Service Db Employee
visible_employee caller who = do
  raise_if (who == caller.employee_id) AppError.not_found_error
  seen ← gets (λ db. can_read caller db.employees who)
  raise_if (not seen) AppError.not_found_error
  row ← gets (λ db. lookup who db.employees)
  or_raise row AppError.not_found_error

-- The rows of one employee replaced.
abbrev pub at_employee : ℕ → (Dict Item → Dict Item) → (ℕ → Dict Item) → ℕ → Dict Item
at_employee who f items k = if k == who then f (items k) else items k

abbrev pub put_item : ℕ → ℕ → Item → Db → Db
put_item who nr row db = record db { items = at_employee who (insert nr row) db.items }

abbrev pub log : ℕ → Action → ℕ → Db → Db
log actor act who db = record db { audit = append_entry actor act who db.audit }

-- The row after `set_step`; "pending" clears who moved it and when.
abbrev pub moved : CurrentUser → StepStatus → Note → ℕ → Item
moved caller to why now = record {
  status = to;
  note = why;
  actor_id = if is_step_pending to then none else some caller.employee_id;
  acted_at = if is_step_pending to then none else some now;
}

unfoldable pub set_step : CurrentUser → ℕ → ℕ → StepStatus → Note → ℕ → Service Db Item
set_step caller who nr to why now = do
  e ← visible_employee caller who
  owner ← or_raise (step_or_none nr) AppError.validation_error
  raise_if (not (may_update_step caller who e owner)) AppError.authorization_error
  let row = moved caller to why now
  modify (put_item who nr row)
  modify (log caller.employee_id (Action.updating_step nr to) who)
  return row

-- There is a letter that its reader may acknowledge.
abbrev pub has_letter_to_sign : Option Decision → Bool
has_letter_to_sign none = false
has_letter_to_sign (some d) = not (is_terminated d.outcome)

abbrev pub signed_row : ℕ → ℕ → Item
signed_row who now = record {
  status = StepStatus.finished;
  note = Note.acknowledged;
  actor_id = some who;
  acted_at = some now;
}

unfoldable pub acknowledge : CurrentUser → ℕ → Service Db Item
acknowledge caller now = do
  row ← gets (λ db. lookup caller.employee_id db.employees)
  or_raise row AppError.not_found_error
  decision ← gets (λ db. lookup caller.employee_id db.decisions)
  raise_if (not (has_letter_to_sign decision)) AppError.conflict_error
  let item = signed_row caller.employee_id now
  modify (put_item caller.employee_id acknowledge_step item)
  modify (log caller.employee_id Action.acknowledging caller.employee_id)
  return item

abbrev is_system : Note → Bool
is_system (Note.by_system n) = true
is_system _ = false

-- `_settled_by_system`
abbrev pub settled_by_system : Item → Bool
settled_by_system row = not (is_some row.actor_id) && is_system row.note

-- A person settled the step: theirs stands.
abbrev pub stands : Option Item → Bool
stands none = false
stands (some row) = not (is_step_pending row.status) && not (settled_by_system row)

abbrev pub system_row : SystemNote → ℕ → Item
system_row n now = record {
  status = StepStatus.finished;
  note = Note.by_system n;
  actor_id = none;
  acted_at = some now;
}

-- `mark_done_by_system`, on the rows of one employee.
unfoldable pub mark_done_by_system : Dict SystemNote → ℕ → Dict Item → Dict Item
mark_done_by_system [] now rows = rows
mark_done_by_system ((nr, n) ∷ notes) now rows =
    mark_done_by_system notes now
      (if stands (lookup nr rows) then rows else insert nr (system_row n now) rows)
