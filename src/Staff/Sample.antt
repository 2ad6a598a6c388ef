-- ===== src/Staff/Sample.antt =====
-- Staff records, callers and outcomes of calls for the tests of the services.
use avora_be.Prelude.{ℕ, true, false, Option, none, some}
use avora_be.Prelude.Service.{Result, ok, err}
use avora_be.Calendar.{date}
use avora_be.Auth.{CurrentUser, Role}
use avora_be.Staff.{Employee}

abbrev pub staff : Role → Option ℕ → Employee
staff r m = record {
  role = r;
  manager_id = m;
  department = some 1;
  payroll_manager = false;
  is_active = true;
  gender = none;
  date_of_birth = none;
  hire_date = some (date 2020 1 6);
  created_on = date 2020 1 6;
  probation_months = none;
}

abbrev pub user : ℕ → Role → CurrentUser
user n r = record { employee_id = n; role = r; manager_id = some 2; payroll_manager = false }

module _ {A S : Type 0} where
  abbrev pub row_of : A → Result (A × S) → A
  row_of a (ok (r, s)) = r
  row_of a (err e) = a

  abbrev pub state_of : S → Result (A × S) → S
  state_of s (ok (r, s')) = s'
  state_of s (err e) = s
