-- ===== src/Reimbursement.antt =====
-- Expense claims in two steps: app/models/reimbursement.py and app/services/reimbursement_service.py
-- with the repository calls it makes. A month is the number YYYYMM of its key "YYYY-MM"; `now` is
-- the clock's reading; a claim's fresh identifier is the argument of `submit`.
mod Handlers
mod Writes
mod History
mod Payout
mod Trail
mod Review
mod Tests
use Prim.Native.String.{String}
use mathlib.Core.Option.{get_or}
use avora_be.Prelude.{
  ℕ, ◌*◌, ◌+◌, Bool, true, false, not, ◌&&◌, ◌||◌, Option, none, some, List, [], ◌∷◌, ◌++◌, any,
  keep, ◌==◌, if◌then◌else◌, is_some, opt_eq,
}
use avora_be.Prelude.Service.{
  AppError, ok, err, Service, ◌>>=◌, ◌>>◌, return, raise_if, or_raise, gets, modify,
}
use avora_be.Prelude.Dict.{Dict, lookup, insert}
use avora_be.Calendar.{Date}
use avora_be.Auth.{CurrentUser, can_review_reimbursements}
use avora_be.Notice.{AuditEntry, Message, append_entry, notify}
use avora_be.Staff.{Employee, list_hr, list_payroll_managers, manager_of}

pub data ClaimStatus : Type 0 where
  submitted manager_approved approved rejected withdrawn : ClaimStatus

pub data Category : Type 0 where
  travel meals supplies software equipment training other : Category

pub record Claim : Type 0 where
  pub employee_id : ℕ
  pub amount_minor : ℕ
  pub category : Category
  pub description : String
  pub expense_date : Date
  pub period_month : ℕ
  pub status : ClaimStatus
  pub manager_reviewer_id : Option ℕ
  pub manager_decided_at : Option ℕ
  pub manager_note : Option String
  pub hr_reviewer_id : Option ℕ
  pub hr_decided_at : Option ℕ
  pub hr_note : Option String

pub record ClaimCreate : Type 0 where
  pub amount_minor : ℕ
  pub category : Category
  pub description : String
  pub expense_date : Date

pub record ClaimDecision : Type 0 where
  pub approve : Bool
  pub note : Option String
  pub settlement_month : Option ℕ

pub data Action : Type 0 where
  submitting withdrawing unscheduling : Action
  manager_deciding hr_deciding : ClaimStatus → Action
  settlement_month_moving : ℕ → ℕ → Action

pub data Title : Type 0 where
  to_review for_final_approval claim_approved claim_declined back_under_review : Title

-- What the service reads and writes. `released` lists the months that have payslips.
pub record Db : Type 0 where
  pub claims : Dict Claim
  pub employees : Dict Employee
  pub released : List ℕ
  pub audit : List (AuditEntry Action)
  pub messages : List (Message Title)

abbrev pub is_submitted : ClaimStatus → Bool
is_submitted ClaimStatus.submitted = true
is_submitted _ = false

abbrev pub is_manager_approved : ClaimStatus → Bool
is_manager_approved ClaimStatus.manager_approved = true
is_manager_approved _ = false

abbrev pub is_approved : ClaimStatus → Bool
is_approved ClaimStatus.approved = true
is_approved _ = false

-- `Reimbursement.period_for`
abbrev pub period_for : Date → ℕ
period_for d = d.year * 100 + d.month

-- `bool(list_for_month(month))`
abbrev pub is_released : ℕ → Db → Bool
is_released month db = any (◌==◌ month) db.released

abbrev put_claim : ℕ → Claim → Service Db (Unit {0})
put_claim k row = modify (λ db. record db { claims = insert k row db.claims })

abbrev append_audit : ℕ → Action → ℕ → Service Db (Unit {0})
append_audit who act k = modify (λ db. record db { audit = append_entry who act k db.audit })

-- The loop of the two review pings: each recipient once, never `self`.
abbrev pub notify_each :
    List ℕ → List ℕ → ℕ → Title → ℕ → ℕ → List (Message Title) → List (Message Title)
notify_each [] seen self title k actor ms = ms
notify_each (r ∷ rs) seen self title k actor ms =
    if any (◌==◌ r) seen || r == self
    then notify_each rs seen self title k actor ms
    else notify_each rs (r ∷ seen) self title k actor (notify r title k (some actor) ms)

abbrev send : (List (Message Title) → List (Message Title)) → Service Db (Unit {0})
send f = modify (λ db. record db { messages = f db.messages })

-- Both lists of final reviewers, in the order of the source.
abbrev pub final_reviewers : Dict Employee → List ℕ
final_reviewers es = list_hr es ++ list_payroll_managers es

-- `row is not None and row.is_active`
abbrev is_active_row : Option Employee → Bool
is_active_row none = false
is_active_row (some e) = e.is_active

-- `_notify_step1_reviewers`: an active manager, else HR and the payroll managers.
abbrev pub step1_recipients : CurrentUser → Dict Employee → List ℕ
step1_recipients caller es = elim caller.manager_id [
  | none ↦ final_reviewers es
  | some m ↦ if is_active_row (lookup m es) then m ∷ [] else final_reviewers es
]

-- `_may_manager_step`
abbrev pub may_manager_step : CurrentUser → Option ℕ → Bool
may_manager_step caller manager =
    can_review_reimbursements caller || opt_eq manager caller.employee_id

-- `_is_manager_reviewer`
abbrev pub is_manager_reviewer : CurrentUser → Claim → Db → Bool
is_manager_reviewer caller row db =
    may_manager_step caller (manager_of (lookup row.employee_id db.employees))

-- `create`: a new claim has no decision on it.
abbrev pub new_claim : ClaimCreate → ℕ → Claim
new_claim p who = record {
  employee_id = who;
  amount_minor = p.amount_minor;
  category = p.category;
  description = p.description;
  expense_date = p.expense_date;
  period_month = period_for p.expense_date;
  status = ClaimStatus.submitted;
  manager_reviewer_id = none;
  manager_decided_at = none;
  manager_note = none;
  hr_reviewer_id = none;
  hr_decided_at = none;
  hr_note = none;
}
