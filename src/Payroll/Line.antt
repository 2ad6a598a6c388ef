-- ===== src/Payroll/Line.antt =====
-- One person's payroll line: app/services/payroll_service.py, lines 416 to 437, 717 to 796, 1243 to 1260 and 1321 to 1335. Days are in hundredths, as the stored overrides have
-- them. The texts of a line (name, department, title, location, currency) are left out.
pub mod Adjusted
pub mod Days
pub mod Whole
mod Tests
use avora_be.Prelude.{
  ℕ, zero, suc, ◌+◌, ◌-◌, ◌*◌, min, Bool, true, false, not, ◌&&◌, Option, none, some, List, [], ◌∷◌,
  keep, length, if◌then◌else◌,
}
use avora_be.Prelude.Int.{ℤ, pos, ◌+ℤ◌, ◌-ℤ◌}
use avora_be.Calendar.{Date, date_leb}
use avora_be.Payroll.Slip.{CalcConfig, SalaryBreakdown, compute_breakdown}
use avora_be.Payroll.WorkDays.{
  days_in_month, is_holiday, weekdays_in_month, payroll_window, payable_base_days,
}
use avora_be.Payroll.Adjust.{
  PayrollAdjustment, targets_present, targets_paid, day_override, lop_override, apply_adjustments,
}
use avora_be.Payroll.Prorate.{monthly_ctc_minor, prorate_breakdown}

pub record Compensation : Type 0 where
  pub amount_minor : ℕ
  pub is_annual : Bool
  pub pf_enabled : Bool

-- `_config_for`
abbrev pub config_for : CalcConfig → Option Compensation → CalcConfig
config_for cfg none = cfg
config_for cfg (some comp) = if comp.pf_enabled then cfg else record cfg { deduct_pf = false }

pub record MonthCalendar : Type 0 where
  pub year : ℕ
  pub month : ℕ
  pub working_dates : List Date
  pub elapsed_working_dates : List Date
  pub total_days : ℕ

-- `_month_calendar`, from the holidays of the month and today's date.
unfoldable pub month_calendar : ℕ → ℕ → List Date → Date → ℕ → MonthCalendar
month_calendar year month holidays today per_week =
    let working = keep (λ d. not (is_holiday holidays d)) (weekdays_in_month year month per_week) in
    record {
      year = year;
      month = month;
      working_dates = working;
      elapsed_working_dates = keep (λ d. date_leb d today) working;
      total_days = days_in_month year month;
    }

abbrev pub in_span : Date × Date → Date → Bool
in_span span d = date_leb span.0 d && date_leb d span.1

pub record PayrollLine : Type 0 where
  pub employee_id : ℕ
  pub monthly_ctc_minor : ℤ
  pub breakdown : SalaryBreakdown
  pub prorated : SalaryBreakdown
  pub total_days : ℕ
  pub working_days : ℕ
  pub elapsed_working_days : ℕ
  pub present_days : ℕ
  pub paid_leave_days : ℕ
  pub lop_days : ℕ
  pub payable_days : ℕ
  pub payable_base_days : ℕ
  pub adjustment_earnings_minor : ℕ
  pub adjustment_deductions_minor : ℕ
  pub reimbursement_minor : ℕ
  pub net_minor : ℤ
  pub missing_compensation : Bool

abbrev pub ctc_of : Option Compensation → ℤ
ctc_of none = pos 0
ctc_of (some comp) = monthly_ctc_minor (pos comp.amount_minor) comp.is_annual

abbrev is_none : Option Compensation → Bool
is_none none = true
is_none (some comp) = false

-- `_line_for`
unfoldable pub line_for :
    ℕ
    → Option Date
    → Option Compensation
    → CalcConfig
    → MonthCalendar
    → ℕ
    → ℕ
    → List PayrollAdjustment
    → ℕ
    → PayrollLine
line_for employee hire_date comp cfg cal present paid adjustments reimbursement =
    let mctc = ctc_of comp in
    let breakdown = compute_breakdown mctc (config_for cfg comp) (some cal.month) in
    let span = payroll_window cal.year cal.month hire_date in
    let base_days = payable_base_days cal.year cal.month hire_date in
    let in_window = keep (in_span span) cal.working_dates in
    let elapsed_working = length (keep (in_span span) cal.elapsed_working_dates) in
    let present' = day_override targets_present adjustments present in
    let paid' = day_override targets_paid adjustments paid in
    let worked = min (100 * elapsed_working) (present' + paid') in
    let lop = lop_override adjustments (100 * elapsed_working - worked) base_days in
    let payable = 100 * base_days - lop in
    let (adjusted, earnings, deductions) =
      apply_adjustments (prorate_breakdown breakdown (pos payable) cal.total_days) adjustments in
    record {
      employee_id = employee;
      monthly_ctc_minor = mctc;
      breakdown = breakdown;
      prorated = adjusted;
      total_days = cal.total_days;
      working_days = length in_window;
      elapsed_working_days = elapsed_working;
      present_days = present';
      paid_leave_days = paid';
      lop_days = lop;
      payable_days = payable;
      payable_base_days = base_days;
      adjustment_earnings_minor = earnings;
      adjustment_deductions_minor = deductions;
      reimbursement_minor = reimbursement;
      net_minor = adjusted.net_minor +ℤ pos reimbursement;
      missing_compensation = is_none comp;
    }

-- The day counts of a month's attendance report; days away are in hundredths.
pub record AttendanceMonthSummary : Type 0 where
  pub full_days : ℕ
  pub half_days : ℕ
  pub late_days : ℕ
  pub out_of_office_days : ℕ

-- `_present_days`
abbrev pub present_days_of : Option AttendanceMonthSummary → ℕ
present_days_of none = 0
present_days_of (some s) =
    100 * s.full_days + 100 * s.late_days + 50 * s.half_days + s.out_of_office_days
