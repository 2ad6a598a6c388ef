-- ===== src/Staff.antt =====
-- The staff records that the services read: app/models/employee.py and the reads of
-- app/repositories/employee.py.
pub mod Scope
pub mod Tree
pub mod Sample
mod Tests
use avora_be.Prelude.{ℕ, Bool, Option, none, some, false, ◌==◌, ◌&&◌, List, [], ◌∷◌, if◌then◌else◌}
use avora_be.Prelude.Dict.{Dict}
use avora_be.Calendar.{Date}
use avora_be.Auth.{Role, is_hr}

pub data Gender : Type 0 where
  male female other_gender : Gender

pub record Employee : Type 0 where
  pub role : Role
  pub manager_id : Option ℕ
  pub department : Option ℕ
  pub payroll_manager : Bool
  pub is_active : Bool
  pub gender : Option Gender
  pub date_of_birth : Option Date
  pub hire_date : Option Date
  pub created_on : Date
  pub probation_months : Option ℕ

-- The identifiers of the rows that a query keeps.
abbrev pub ids_where : (Employee → Bool) → Dict Employee → List ℕ
ids_where p [] = []
ids_where p ((k, e) ∷ d) = if p e then k ∷ ids_where p d else ids_where p d

-- `list_by_role(Role.HR)`: the active employees whose stored role is HR.
abbrev pub list_hr : Dict Employee → List ℕ
list_hr = ids_where (λ e. is_hr e.role && e.is_active)

-- `list_payroll_managers`
abbrev pub list_payroll_managers : Dict Employee → List ℕ
list_payroll_managers = ids_where (λ e. e.payroll_manager && e.is_active)

-- `requester.manager_id if requester is not None else None`
abbrev pub manager_of : Option Employee → Option ℕ
manager_of none = none
manager_of (some e) = e.manager_id

abbrev opt_both : Option ℕ → Option ℕ → Bool
opt_both (some a) (some b) = a == b
opt_both _ _ = false

-- SQL's `=` of the two departments, which is not true where one is missing.
abbrev pub same_department : Option Employee → Option Employee → Bool
same_department (some a) (some b) = opt_both a.department b.department
same_department _ _ = false
