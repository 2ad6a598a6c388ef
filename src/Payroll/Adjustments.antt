-- ===== src/Payroll/Adjustments.antt =====
-- Who may adjust a payroll, and how: app/services/payroll_adjustment_service.py with
-- app/repositories/payroll_adjustment.py. Months are numbers, and labels and notes are left out; the
-- identifier of a new row is an argument of `create`.
mod Single
mod Tests
use avora_be.Prelude.{
  ℕ, suc, Bool, true, false, not, ◌&&◌, Option, none, some, List, [], ◌∷◌, ◌++◌, ◌==◌,
  if◌then◌else◌, is_some, opt_eq,
}
use avora_be.Prelude.Dict.{Dict, lookup}
use avora_be.Prelude.Service.{AppError, Service, ◌>>=◌, ◌>>◌, return, raise_if, gets, modify}
use avora_be.Auth.{CurrentUser, can_manage_payroll}
use avora_be.Notice.{AuditEntry, append_entry}
use avora_be.Staff.{Employee}
use avora_be.Payroll.Adjust.{PayrollAdjustment, PayrollAdjustmentTarget, is_override}

pub record AdjustmentRow : Type 0 where
  pub employee_id : ℕ
  pub period_month : ℕ
  pub adjustment : PayrollAdjustment
  pub created_by : Option ℕ

pub data Action : Type 0 where
  creating deleting : Action

pub record Db : Type 0 where
  pub rows : Dict AdjustmentRow
  pub employees : Dict Employee
  pub audit : List (AuditEntry Action)

abbrev pub target_code : PayrollAdjustmentTarget → ℕ
target_code PayrollAdjustmentTarget.basic = 0
target_code PayrollAdjustmentTarget.hra = 1
target_code PayrollAdjustmentTarget.special_allowance = 2
target_code PayrollAdjustmentTarget.employee_pf = 3
target_code PayrollAdjustmentTarget.professional_tax = 4
target_code PayrollAdjustmentTarget.income_tax = 5
target_code PayrollAdjustmentTarget.present_days = 6
target_code PayrollAdjustmentTarget.paid_leave_days = 7
target_code PayrollAdjustmentTarget.lop_days = 8
target_code PayrollAdjustmentTarget.payable_days = 9
target_code PayrollAdjustmentTarget.net_pay = 10

abbrev pub code_of : Option PayrollAdjustmentTarget → Option ℕ
code_of none = none
code_of (some t) = some (target_code t)

-- An override of one field for an employee and a month.
abbrev pub overrides : ℕ → ℕ → ℕ → AdjustmentRow → Bool
overrides who month code row =
    row.employee_id == who
    && (row.period_month == month
        && (is_override row.adjustment.kind && opt_eq (code_of row.adjustment.target) code))

-- The rows that a test does not pick.
abbrev pub drop_rows : (ℕ → AdjustmentRow → Bool) → Dict AdjustmentRow → Dict AdjustmentRow
drop_rows p [] = []
drop_rows p ((k, r) ∷ d) = if p k r then drop_rows p d else (k, r) ∷ drop_rows p d

-- `delete_overrides_for`
abbrev pub drop_overrides : ℕ → ℕ → ℕ → Dict AdjustmentRow → Dict AdjustmentRow
drop_overrides who month code rows = drop_rows (λ k. overrides who month code) rows

abbrev pub replacing : Bool → Option ℕ → ℕ → ℕ → Dict AdjustmentRow → Dict AdjustmentRow
replacing true (some code) who month rows = drop_overrides who month code rows
replacing true none who month rows = rows
replacing false target who month rows = rows

-- An override takes the place of the one before.
unfoldable pub without_override : AdjustmentRow → Dict AdjustmentRow → Dict AdjustmentRow
without_override row rows =
    replacing (is_override row.adjustment.kind) (code_of row.adjustment.target) row.employee_id
      row.period_month rows

abbrev pub is_working : Option Employee → Bool
is_working none = false
is_working (some e) = e.is_active

abbrev pub new_row : CurrentUser → ℕ → ℕ → PayrollAdjustment → AdjustmentRow
new_row caller who month a = record {
  employee_id = who;
  period_month = month;
  adjustment = a;
  created_by = some caller.employee_id;
}

unfoldable pub create : CurrentUser → ℕ → ℕ → PayrollAdjustment → ℕ → Service Db AdjustmentRow
create caller who month a k = do
  raise_if (not (can_manage_payroll caller)) AppError.authorization_error
  row ← gets (λ db. lookup who db.employees)
  raise_if (not (is_working row)) AppError.validation_error
  let new = new_row caller who month a
  modify (λ db. record db {
    rows = without_override new db.rows ++ ((k, new) ∷ []);
    audit = append_entry caller.employee_id Action.creating k db.audit;
  })
  return new

unfoldable pub delete : CurrentUser → ℕ → Service Db (Unit {0})
delete caller k = do
  raise_if (not (can_manage_payroll caller)) AppError.authorization_error
  row ← gets (λ db. lookup k db.rows)
  raise_if (not (is_some row)) AppError.not_found_error
  modify (λ db. record db {
    rows = drop_rows (λ j r. j == k) db.rows;
    audit = append_entry caller.employee_id Action.deleting k db.audit;
  })
