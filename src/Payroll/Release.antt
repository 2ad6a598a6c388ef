-- ===== src/Payroll/Release.antt =====
-- Estimating and releasing a month: app/services/payroll_service.py, `estimate` (lines 362 to 413),
-- `finalize` and `_release_from_estimate`, with `upsert` of app/repositories/payslip.py. All reads
-- and writes of payslips are of the month released, so `slips` is that month's table by employee.
-- Whether a person has an address and whether the mail server takes a message are parameters.
pub mod Owed
pub mod Again
pub mod Month
mod Tests
use native.Mathlib.Decide.{ℕ_discrete}
use mathlib.Core.Logic.{ite}
use mathlib.Core.Option.{get_or}
use avora_be.Prelude.{
  ℕ, suc, ◌+◌, Bool, true, false, not, ◌&&◌, ◌||◌, Option, none, some, List, [], ◌∷◌, ◌++◌, length,
  ◌==◌, if◌then◌else◌,
}
use avora_be.Prelude.Int.{ℤ, pos, pos_part, ◌+ℤ◌}
use avora_be.Prelude.Dict.{Dict, lookup, insert}
use avora_be.Prelude.Service.{
  AppError, ok, err, Service, ◌>>=◌, ◌>>◌, return, raise_if, gets, modify,
}
use avora_be.Auth.{CurrentUser, can_manage_payroll}
use avora_be.Calendar.{Date}
use avora_be.Payroll.Slip.{CalcConfig, SalaryBreakdown}
use avora_be.Payroll.Adjust.{PayrollAdjustment}
use avora_be.Payroll.Line.{
  Compensation, MonthCalendar, PayrollLine, AttendanceMonthSummary, present_days_of, line_for,
}

-- The money and the days of a slip, which `_already_holds` compares.
pub record Figures : Type 0 where
  pub monthly_ctc_minor : ℤ
  pub gross_minor : ℤ
  pub net_minor : ℤ
  pub reimbursement_minor : ℕ
  pub breakdown : SalaryBreakdown
  pub prorated_breakdown : SalaryBreakdown
  pub total_days : ℕ
  pub working_days : ℕ
  pub present_days : ℕ
  pub paid_leave_days : ℕ
  pub payable_days : ℕ

ℤ-discrete : Discrete ℤ
unfolding ℕ_discrete
ℤ-discrete = hlevel (ℕ_discrete)

SalaryBreakdown-discrete : Discrete SalaryBreakdown
SalaryBreakdown-discrete = hlevel (ℤ-discrete)

pub Figures-discrete : Discrete Figures
Figures-discrete = hlevel (ℤ-discrete, ℕ_discrete, SalaryBreakdown-discrete)

unfoldable pub same_figures : Figures → Figures → Bool
same_figures a b = ite (Figures-discrete a b) true false

-- What a line freezes into a payslip.
abbrev pub figures_of : PayrollLine → Figures
figures_of line = record {
  monthly_ctc_minor = line.monthly_ctc_minor;
  gross_minor = line.breakdown.gross_minor;
  net_minor = line.net_minor;
  reimbursement_minor = line.reimbursement_minor;
  breakdown = line.breakdown;
  prorated_breakdown = line.prorated;
  total_days = line.total_days;
  working_days = line.working_days;
  present_days = line.present_days;
  paid_leave_days = line.paid_leave_days;
  payable_days = line.payable_days;
}

pub record Payslip : Type 0 where
  pub figures : Figures
  pub emailed : Bool
  pub finalized_by : Option ℕ

-- `_already_holds`
unfoldable pub already_holds : Option Payslip → Figures → Bool
unfolding same_figures
already_holds none fresh = false
already_holds (some existing) fresh = existing.emailed && same_figures existing.figures fresh

abbrev was_emailed : Option Payslip → Bool
was_emailed none = false
was_emailed (some existing) = existing.emailed

-- `upsert`: the mark of the e-mail stays on a row that was there.
abbrev pub upserted : Option Payslip → Figures → Option ℕ → Payslip
upserted old fresh actor = record {
  figures = fresh;
  emailed = was_emailed old;
  finalized_by = actor;
}

-- The variables of the loop of `_release_from_estimate`: the month's payslips, whom a message went
-- to, and the three counters.
pub record Desk : Type 0 where
  pub slips : Dict Payslip
  pub sent : List ℕ
  pub released : ℕ
  pub emailed : ℕ
  pub skipped : ℕ

-- `net_minor <= 0`
abbrev pub is_unpaid : PayrollLine → Bool
is_unpaid line = pos_part line.net_minor == 0

module _ (reachable sends : ℕ → Bool) (actor : Option ℕ) where
  -- After the upsert: the message, unless the person holds this slip already.
  unfoldable pub mail_slip : ℕ → Payslip → Bool → Desk → Desk
  mail_slip who slip held desk =
      if held || not (reachable who) || not (sends who) then desk else record desk {
        slips = insert who (record slip { emailed = true }) desk.slips;
        sent = desk.sent ++ (who ∷ []);
        emailed = desk.emailed + 1;
      }

  -- One round of the loop.
  unfoldable pub release_line : PayrollLine → Desk → Desk
  unfolding already_holds
  release_line line desk =
      let who = line.employee_id in
      let old = lookup who desk.slips in
      let slip = upserted old (figures_of line) actor in
      if line.missing_compensation || is_unpaid line
      then record desk { skipped = desk.skipped + 1 }
      else mail_slip who slip (already_holds old (figures_of line))
          (record desk { slips = insert who slip desk.slips; released = desk.released + 1 })

  abbrev pub release_lines : List PayrollLine → Desk → Desk
  release_lines [] desk = desk
  release_lines (line ∷ rest) desk = release_lines rest (release_line line desk)

  -- `_release_from_estimate`
  unfoldable pub release_from_estimate : List PayrollLine → Dict Payslip → Desk
  unfolding release_line mail_slip
  release_from_estimate lines slips =
      release_lines lines
        (record { slips = slips; sent = []; released = 0; emailed = 0; skipped = 0 })

-- `sum(line.net_minor for line in est.lines if not line.missing_compensation)`
abbrev pub total_net : List PayrollLine → ℤ
total_net [] = pos 0
total_net (line ∷ rest) =
    if line.missing_compensation then total_net rest else line.net_minor +ℤ total_net rest

-- The tables that an estimate reads, by employee.
pub record Inputs : Type 0 where
  pub staff : Dict (Option Date)
  pub comps : Dict Compensation
  pub summaries : Dict AttendanceMonthSummary
  pub paid_leaves : Dict ℕ
  pub adjustments : Dict (List PayrollAdjustment)
  pub reimbursed : Dict ℕ

-- The loop of `estimate` over the active staff with their hire dates.
unfoldable pub estimate_lines :
    CalcConfig → MonthCalendar → Inputs → Dict (Option Date) → List PayrollLine
estimate_lines cfg cal inputs [] = []
estimate_lines cfg cal inputs ((k, hire_date) ∷ rest) =
    line_for k hire_date (lookup k inputs.comps) cfg cal
      (present_days_of (lookup k inputs.summaries)) (get_or (lookup k inputs.paid_leaves) 0)
      (get_or (lookup k inputs.adjustments) []) (get_or (lookup k inputs.reimbursed) 0)
    ∷ estimate_lines cfg cal inputs rest

unfoldable pub estimate : CalcConfig → MonthCalendar → Inputs → List PayrollLine
unfolding estimate_lines
estimate cfg cal inputs = estimate_lines cfg cal inputs inputs.staff

-- What a month's run keeps: the row that `upsert` writes, and the line of the audit log.
pub record PayrollRun : Type 0 where
  pub total_net_minor : ℤ
  pub employee_count : ℕ
  pub triggered_by : Option ℕ

pub record Db : Type 0 where
  pub inputs : Inputs
  pub slips : Dict Payslip
  pub run : Option PayrollRun
  pub audit : List ℕ

-- `finalize`, for the month of the calendar: its answer are the counters of the release.
unfoldable pub finalize :
    CurrentUser → CalcConfig → MonthCalendar → (ℕ → Bool) → (ℕ → Bool) → Service Db Desk
unfolding estimate release_from_estimate
finalize caller cfg cal reachable sends = do
  raise_if (not (can_manage_payroll caller)) AppError.authorization_error
  lines ← gets (λ db. estimate cfg cal db.inputs)
  desk ← gets (λ db. release_from_estimate reachable sends (some caller.employee_id) lines db.slips)
  modify λ db. record db {
    slips = desk.slips;
    run = some (record {
      total_net_minor = total_net lines;
      employee_count = desk.released;
      triggered_by = some caller.employee_id;
    });
    audit = db.audit ++ (caller.employee_id ∷ []);
  }
  return desk
