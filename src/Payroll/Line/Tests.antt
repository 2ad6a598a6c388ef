-- ===== src/Payroll/Line/Tests.antt =====
-- August 2026 for somebody who joined on the 17th, and the theorems at such inputs.
use avora_be.Prelude.{◌+◌, ◌*◌, ◌≡◌, refl, min, false, true, none, some, [], ◌∷◌, arith}
use avora_be.Prelude.Int.{pos, ◌+ℤ◌}
use avora_be.Calendar.{
  date, to_ordinal, date_ltb, month_length, days_before_year, days_before_month, is_leap,
}
use avora_be.Payroll.Slip.{default_config, compute_breakdown, zero_slip}
use avora_be.Payroll.WorkDays.{payable_base_days, payroll_window, days_in_month}
use avora_be.Payroll.Adjust.{
  PayrollAdjustment, PayrollAdjustmentKind, PayrollAdjustmentTarget, apply_adjustments,
  lop_override,
}
use avora_be.Payroll.Line.{
  Compensation, MonthCalendar, month_calendar, line_for, config_for, ctc_of,
}
use avora_be.Payroll.Line.Whole.{line_for-whole}
use avora_be.Payroll.Line.Days.{line_for_days}
use avora_be.Payroll.Line.Adjusted.{Adjusted, earned, deducted, apply_adjustments_lem}

abbrev salary : Compensation
salary = record { amount_minor = 4_000_000; is_annual = false; pf_enabled = true }

abbrev bonus : PayrollAdjustment
bonus = record { kind = PayrollAdjustmentKind.earning; target = none; amount_minor = 50_000 }

abbrev paid_ten : PayrollAdjustment
paid_ten = record {
  kind = PayrollAdjustmentKind.override;
  target = some PayrollAdjustmentTarget.payable_days;
  amount_minor = 1_000;
}

abbrev forced_net : PayrollAdjustment
forced_net = record {
  kind = PayrollAdjustmentKind.override;
  target = some PayrollAdjustmentTarget.net_pay;
  amount_minor = 2_000_000;
}

-- Paid ten of 17 days: seven are lost.
complement : lop_override (bonus ∷ paid_ten ∷ []) 0 17 ≡ 700
unfolding lop_override
complement = refl

-- Two working days of a short calendar, both attended.
abbrev short : MonthCalendar
short = record {
  year = 2026;
  month = 8;
  working_dates = date 2026 8 3 ∷ date 2026 8 4 ∷ [];
  elapsed_working_dates = date 2026 8 3 ∷ date 2026 8 4 ∷ [];
  total_days = 31;
}

line_for-whole_example :
    let line = line_for 1 none (some salary) default_config short 200 0 [] 9_900 in
    let full =
      compute_breakdown (ctc_of (some salary)) (config_for default_config (some salary)) (some 8) in
    (line.lop_days ≡ 0) × (line.prorated ≡ full) × (line.net_minor ≡ full.net_minor +ℤ pos 9_900)
unfolding payable_base_days payroll_window days_in_month date_ltb month_length to_ordinal
    days_before_year days_before_month is_leap
line_for-whole_example =
    line_for-whole 1 none (some salary) default_config short 200 0 9_900 refl (omega arith)

line_for_days_example :
    let cal = month_calendar 2026 8 [] (date 2026 9 1) 5 in
    let line = line_for 1 (some (date 2026 8 17)) (some salary) default_config cal 950 50 [] 0 in
    (line.lop_days + min (100 * line.elapsed_working_days) (950 + 50)
      ≡ 100 * line.elapsed_working_days)
    × (line.payable_days + line.lop_days ≡ 100 * line.payable_base_days)
unfolding month_length is_leap
line_for_days_example =
    line_for_days 2026 8 5 [] (date 2026 9 1) (omega arith) (omega arith) (omega arith) 1
      (some (date 2026 8 17)) (some salary) default_config 950 50 0 (omega arith)

apply_adjustments_lem_example :
    let (r, earnings, deductions) = apply_adjustments zero_slip (bonus ∷ forced_net ∷ []) in
    Adjusted zero_slip (bonus ∷ forced_net ∷ []) r
    × (earnings ≡ earned (bonus ∷ forced_net ∷ []))
    × (deductions ≡ deducted (bonus ∷ forced_net ∷ []))
apply_adjustments_lem_example = apply_adjustments_lem zero_slip (bonus ∷ forced_net ∷ [])
