-- ===== src/Auth.antt =====
-- The caller of a service and what the role grants: app/schemas/auth.py and app/models/employee.py.
use avora_be.Prelude.{ℕ, Bool, true, false, ◌||◌, Option}

pub data Role : Type 0 where
  intern executive manager senior_manager hr admin it_admin viewer : Role

abbrev pub is_hr : Role → Bool
is_hr Role.hr = true
is_hr _ = false

abbrev pub is_admin_role : Role → Bool
is_admin_role Role.admin = true
is_admin_role _ = false

pub record CurrentUser : Type 0 where
  pub employee_id : ℕ
  pub role : Role
  pub manager_id : Option ℕ
  pub payroll_manager : Bool

-- `_normalize_role`: an IT admin acts as an admin.
unfoldable pub normalize_role : Role → Role
normalize_role Role.it_admin = Role.admin
normalize_role Role.intern = Role.intern
normalize_role Role.executive = Role.executive
normalize_role Role.manager = Role.manager
normalize_role Role.senior_manager = Role.senior_manager
normalize_role Role.hr = Role.hr
normalize_role Role.admin = Role.admin
normalize_role Role.viewer = Role.viewer

abbrev pub is_admin : CurrentUser → Bool
is_admin c = is_admin_role c.role

abbrev pub can_manage_payroll : CurrentUser → Bool
can_manage_payroll c = is_admin_role c.role || is_hr c.role || c.payroll_manager

abbrev pub can_review_reimbursements : CurrentUser → Bool
can_review_reimbursements c = is_hr c.role || c.payroll_manager
