-- ===== src/Payroll/Line/Whole.antt =====
-- Somebody who missed no elapsed working day gets the full slip: app/services/payroll_service.py,
-- `_line_for`.
use avora_be.Prelude.{ℕ, ◌*◌, ◌+◌, ◌-◌, ◌≤◌, ◌≡◌, refl, min, Option, some, [], length, keep, arith}
use avora_be.Prelude.Int.{pos, ◌+ℤ◌}
use avora_be.Payroll.Slip.{CalcConfig, compute_breakdown}
use avora_be.Payroll.Slip.AddsUp.{compute_breakdown-AddsUp}
use avora_be.Payroll.WorkDays.{payable_base_days, payroll_window}
use avora_be.Payroll.Prorate.{prorate_breakdown}
use avora_be.Payroll.Prorate.Full.{prorate_breakdown-full}
use avora_be.Payroll.Adjust.{day_override, lop_override}
use avora_be.Payroll.Line.{Compensation, MonthCalendar, line_for, config_for, ctc_of, in_span}
use avora_be.Payroll.Line.Adjusted.{apply_adjustments-none}
use avora_be.Calendar.{Date}

-- Without adjustments, if the days present and on paid leave cover the elapsed working days of the
-- person's window, and the window is the whole month: no day is lost, the prorated slip is the
-- full one, and the net is that of the full slip and the reimbursement.
pub line_for-whole :
    (employee : ℕ) (hire_date : Option Date) (comp : Option Compensation) (cfg : CalcConfig)
    (cal : MonthCalendar) (present paid reimbursement : ℕ)
    → payable_base_days cal.year cal.month hire_date ≡ cal.total_days
    → 100
        * length
            (keep (in_span (payroll_window cal.year cal.month hire_date)) cal.elapsed_working_dates)
      ≤ present + paid
    → let line = line_for employee hire_date comp cfg cal present paid [] reimbursement in
      let full = compute_breakdown (ctc_of comp) (config_for cfg comp) (some cal.month) in
      (line.lop_days ≡ 0)
      × (line.prorated ≡ full)
      × (line.net_minor ≡ full.net_minor +ℤ pos reimbursement)
unfolding line_for day_override lop_override
line_for-whole employee hire_date comp cfg cal present paid reimbursement whole covered =
    let full = compute_breakdown (ctc_of comp) (config_for cfg comp) (some cal.month) in
    let adds = compute_breakdown-AddsUp (ctc_of comp) (config_for cfg comp) (some cal.month) in
    let elapsed =
      length
        (keep (in_span (payroll_window cal.year cal.month hire_date)) cal.elapsed_working_dates) in
    let none_lost : 100 * elapsed - min (100 * elapsed) (present + paid) ≡ 0 =
      omega (arith, covered) in
    let base_days = payable_base_days cal.year cal.month hire_date in
    let kept : prorate_breakdown full (pos (100 * base_days - 0)) cal.total_days ≡ full =
      prorate_breakdown-full (config_for cfg comp) full (pos (100 * base_days - 0)) cal.total_days
        adds (omega (arith, whole)) in
    rw (none_lost, kept, apply_adjustments-none (config_for cfg comp) full adds) (refl, refl, refl)
