-- ===== src/Reimbursement/Tests.antt =====
-- One claim from its submission to its payout, and the theorems on that history.
use avora_be.Prelude.{ℕ, ◌≡◌, refl, true, false, Option, none, some, [], ◌∷◌, ◌||◌}
use avora_be.Prelude.Service.{succeeds, Result, ok, err}
use avora_be.Calendar.{date}
use avora_be.Auth.{CurrentUser, Role}
use avora_be.Staff.{Employee}
use avora_be.Reimbursement.{Db, Claim, ClaimStatus, ClaimCreate, ClaimDecision, Category}
use avora_be.Reimbursement.Handlers.{
  submit, manager_decide, hr_decide, settlement_month_of, decidable,
}
use avora_be.Reimbursement.History.{Step, Run, FourEyes, Run-FourEyes}
use avora_be.Reimbursement.Payout.{Paid, OpenOrOld, Run-Paid, approved_month_open}
use avora_be.Reimbursement.Trail.{Audited, Run-Audited}
use avora_be.Reimbursement.Review.{rejection, decidable-succeeds}

abbrev staff : Role → Option ℕ → Employee
staff r m = record {
  role = r;
  manager_id = m;
  department = some 1;
  payroll_manager = false;
  is_active = true;
  gender = none;
  date_of_birth = none;
  hire_date = some (date 2020 1 6);
  created_on = date 2020 1 6;
  probation_months = none;
}

abbrev user : ℕ → Role → CurrentUser
user n r = record { employee_id = n; role = r; manager_id = some 2; payroll_manager = false }

abbrev start : Db
start = record {
  claims = [];
  employees =
      (1, staff Role.executive (some 2))
      ∷ (2, staff Role.manager none)
      ∷ (3, staff Role.hr none)
      ∷ [];
  released = 202608 ∷ [];
  audit = [];
  messages = [];
}

abbrev taxi : ClaimCreate
taxi = record {
  amount_minor = 45_000;
  category = Category.travel;
  description = "taxi";
  expense_date = date 2026 8 20;
}

abbrev approval : Option ℕ → ClaimDecision
approval month = record { approve = true; note = none; settlement_month = month }

abbrev row_of : Claim → Result (Claim × Db) → Claim
row_of c (ok (r, db)) = r
row_of c (err e) = c

abbrev state_of : Db → Result (Claim × Db) → Db
state_of db (ok (r, db')) = db'
state_of db (err e) = db

abbrev nothing : Claim
nothing = record {
  employee_id = 0;
  amount_minor = 0;
  category = Category.other;
  description = "";
  expense_date = date 2026 1 1;
  period_month = 0;
  status = ClaimStatus.rejected;
  manager_reviewer_id = none;
  manager_decided_at = none;
  manager_note = none;
  hr_reviewer_id = none;
  hr_decided_at = none;
  hr_note = none;
}

abbrev filed : Result (Claim × Db)
filed = submit (user 1 Role.executive) taxi 7 start

abbrev passed : Result (Claim × Db)
passed = manager_decide (user 2 Role.manager) 7 (approval none) 100 (state_of start filed)

abbrev settled : Result (Claim × Db)
settled = hr_decide (user 3 Role.hr) 7 (approval (some 202609)) 200 (state_of start passed)

abbrev paid : Db
paid = record (state_of start settled) { released = 202609 ∷ (state_of start settled).released }

history : Run start (state_of start settled)
unfolding submit manager_decide hr_decide settlement_month_of
history =
    Run.next
      (Run.next
        (Run.next Run.done
          (Step.submits (user 1 Role.executive) taxi 7 {r = row_of nothing filed} refl refl))
        (Step.manager_decides (user 2 Role.manager) 7 (approval none) 100
          {r = row_of nothing passed} refl))
      (Step.hr_decides (user 3 Role.hr) 7 (approval (some 202609)) 200 {r = row_of nothing settled}
        refl)

-- August is released: HR has to choose a later month.
august_refused :
    succeeds (hr_decide (user 3 Role.hr) 7 (approval none) 200 (state_of start passed)) ≡ false
unfolding submit manager_decide hr_decide settlement_month_of
august_refused = refl

Run-FourEyes_example : FourEyes (row_of nothing settled)
unfolding submit manager_decide hr_decide settlement_month_of
Run-FourEyes_example = Run-FourEyes 7 refl history refl

approved_month_open_example : OpenOrOld 7 (row_of nothing settled) (state_of start passed)
unfolding submit manager_decide hr_decide settlement_month_of
approved_month_open_example =
    approved_month_open 7 (row_of nothing settled)
      (Step.hr_decides (user 3 Role.hr) 7 (approval (some 202609)) 200 {r = row_of nothing settled}
        refl)
      refl refl

claim-Paid : Paid 7 (row_of nothing settled) paid
unfolding Paid submit manager_decide hr_decide settlement_month_of
claim-Paid = (refl, refl, refl)

Run-Paid_example :
    Paid 7 (row_of nothing settled) (record paid { released = 202610 ∷ paid.released })
unfolding submit manager_decide hr_decide settlement_month_of
Run-Paid_example =
    Run-Paid 7 (row_of nothing settled) (Run.next Run.done (Step.releases 202610)) claim-Paid

Run-Audited_example : Audited start (state_of start settled)
Run-Audited_example = Run-Audited history

decidable-succeeds_example :
    decidable (user 2 Role.manager) (state_of start filed) (row_of nothing filed) ≡ (
      succeeds (manager_decide (user 2 Role.manager) 7 (approval none) 100 (state_of start filed))
      || succeeds (hr_decide (user 2 Role.manager) 7 (rejection none) 100 (state_of start filed)))
unfolding submit
decidable-succeeds_example =
    decidable-succeeds (user 2 Role.manager) 7 (approval none) none 100 (state_of start filed) refl
