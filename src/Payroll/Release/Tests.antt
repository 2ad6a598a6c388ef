-- ===== src/Payroll/Release/Tests.antt =====
-- A month released to two people, of whom one has nothing to be paid.
use avora_be.Prelude.{ℕ, ◌+◌, ◌≤◌, ◌≡◌, refl, false, true, none, some, List, [], ◌∷◌, arith}
use avora_be.Prelude.Int.{pos}
use avora_be.Prelude.Dict.{lookup}
use avora_be.Staff.Scope.{member}
use avora_be.Staff.Sample.{state_of}
use avora_be.Auth.{CurrentUser, Role, can_manage_payroll}
use avora_be.Payroll.Slip.{zero_slip, default_config}
use avora_be.Payroll.Line.{PayrollLine, MonthCalendar}
use avora_be.Payroll.Release.{
  Db, Desk, estimate, finalize, release_from_estimate, release_line, mail_slip, already_holds,
}
use avora_be.Payroll.Release.Again.{never_mailed_twice, figures_for}
use avora_be.Payroll.Release.Month.{finalize_lem, nets}
use avora_be.Payroll.Release.Owed.{
  release_from_estimate_lem, figures_on_file, or_before, owed_count,
}

abbrev line : ℕ → ℕ → PayrollLine
line who net = record {
  employee_id = who;
  monthly_ctc_minor = pos net;
  breakdown = zero_slip;
  prorated = zero_slip;
  total_days = 30;
  working_days = 22;
  elapsed_working_days = 22;
  present_days = 2_200;
  paid_leave_days = 0;
  lop_days = 0;
  payable_days = 3_000;
  payable_base_days = 3_000;
  adjustment_earnings_minor = 0;
  adjustment_deductions_minor = 0;
  reimbursement_minor = 0;
  net_minor = pos net;
  missing_compensation = false;
}

abbrev lines : List PayrollLine
lines = line 1 4_000_000 ∷ line 2 0 ∷ []

first_mail : (release_from_estimate (λ _. true) (λ _. true) none lines []).sent ≡ 1 ∷ []
unfolding release_from_estimate release_line mail_slip already_holds
first_mail = refl

never_mailed_twice_example :
    let first = release_from_estimate (λ _. true) (λ _. true) none lines [] in
    member 1 (release_from_estimate (λ _. true) (λ _. true) none lines first.slips).sent ≡ false
unfolding release_from_estimate release_line mail_slip already_holds
never_mailed_twice_example =
    never_mailed_twice (λ _. true) (λ _. true) (λ _. true) (λ _. true) none none 1 lines []
      (omega arith) refl

release_from_estimate_lem_example :
    let desk = release_from_estimate (λ _. true) (λ _. true) none lines [] in
    (figures_on_file (lookup 1 desk.slips)
      ≡ or_before (figures_for 1 lines) (figures_on_file (lookup {V = _} 1 [])))
    × (desk.released + desk.skipped ≡ 2)
    × (desk.emailed ≤ desk.released)
release_from_estimate_lem_example =
    release_from_estimate_lem (λ _. true) (λ _. true) none 1 lines [] (omega arith)

abbrev office : Db
office = record {
  inputs = record {
    staff = (1, none) ∷ (2, none) ∷ [];
    comps = (1, record { amount_minor = 4_000_000; is_annual = false; pf_enabled = true }) ∷ [];
    summaries = [];
    paid_leaves = [];
    adjustments = [];
    reimbursed = [];
  };
  slips = [];
  run = none;
  audit = [];
}

abbrev quiet : MonthCalendar
quiet = record {
  year = 2026;
  month = 8;
  working_dates = [];
  elapsed_working_dates = [];
  total_days = 31;
}

abbrev accountant : CurrentUser
accountant = record {
  employee_id = 9;
  role = Role.executive;
  manager_id = none;
  payroll_manager = true;
}

abbrev nobody : Desk
nobody = record { slips = []; sent = []; released = 0; emailed = 0; skipped = 0 }

finalize_lem_example :
    let run = finalize accountant default_config quiet (λ _. true) (λ _. true) office in
    (can_manage_payroll accountant ≡ true)
    × (figures_on_file (lookup 1 (state_of office run).slips)
        ≡ or_before
            (figures_for 1 (estimate default_config quiet office.inputs))
            (figures_on_file (lookup 1 office.slips)))
    × ((state_of office run).run
        ≡ some (record {
          total_net_minor = nets (estimate default_config quiet office.inputs);
          employee_count = owed_count (estimate default_config quiet office.inputs);
          triggered_by = some 9;
        }))
unfolding finalize
finalize_lem_example =
    finalize_lem accountant default_config quiet (λ _. true) (λ _. true) 1 office (omega arith) refl
