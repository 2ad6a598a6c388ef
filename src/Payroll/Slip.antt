-- ===== src/Payroll/Slip.antt =====
-- The monthly salary slip: app/core/payroll.py, lines 80 to 155, for a configuration of
-- non-negative numbers, which app/schemas/payroll.py asks of the stored one. Amounts are in paise;
-- `round(n / d)` is taken on the exact quotient (see Payroll/Tax).
pub mod AddsUp
pub mod NetPay
mod Tests
use avora_be.Prelude.{ℕ, ◌*◌, min, Bool, true, false, Option, none, some, ◌==◌, if◌then◌else◌}
use avora_be.Prelude.Int.{ℤ, pos, pos_part, ◌+ℤ◌, ◌-ℤ◌, ◌*ℤ◌}
use avora_be.Prelude.Round.{round_div}
use avora_be.Payroll.Tax.{compute_annual_income_tax}

pub record CalcConfig : Type 0 where
  pub basic_pct : ℕ
  pub hra_pct : ℕ
  pub pf_pct : ℕ
  pub pf_cap_minor : ℕ
  pub professional_tax_minor : ℕ
  pub professional_tax_feb_minor : ℕ
  pub deduct_income_tax : Bool
  pub deduct_pf : Bool

-- `CalcConfig()`
abbrev pub default_config : CalcConfig
default_config = record {
  basic_pct = 30;
  hra_pct = 50;
  pf_pct = 12;
  pf_cap_minor = 180_000;
  professional_tax_minor = 20_000;
  professional_tax_feb_minor = 30_000;
  deduct_income_tax = true;
  deduct_pf = true;
}

pub record SalaryBreakdown : Type 0 where
  pub ctc_minor : ℤ
  pub basic_minor : ℤ
  pub hra_minor : ℤ
  pub special_allowance_minor : ℤ
  pub employer_pf_minor : ℤ
  pub gross_minor : ℤ
  pub employee_pf_minor : ℤ
  pub professional_tax_minor : ℤ
  pub income_tax_minor : ℤ
  pub total_deduction_minor : ℤ
  pub net_minor : ℤ

abbrev pub zero_slip : SalaryBreakdown
zero_slip = record {
  ctc_minor = pos 0;
  basic_minor = pos 0;
  hra_minor = pos 0;
  special_allowance_minor = pos 0;
  employer_pf_minor = pos 0;
  gross_minor = pos 0;
  employee_pf_minor = pos 0;
  professional_tax_minor = pos 0;
  income_tax_minor = pos 0;
  total_deduction_minor = pos 0;
  net_minor = pos 0;
}

-- The PF line: a percentage of Basic up to the cap, or nothing.
unfoldable pub pf_of : CalcConfig → ℕ → ℕ
pf_of cfg basic =
    if cfg.deduct_pf then min (round_div (basic * cfg.pf_pct) 100) cfg.pf_cap_minor else 0

-- `month == 2` on an optional month.
abbrev is_february : Option ℕ → Bool
is_february none = false
is_february (some m) = m == 2

unfoldable pub prof_tax_of : CalcConfig → Option ℕ → ℕ
prof_tax_of cfg month =
    if is_february month then cfg.professional_tax_feb_minor else cfg.professional_tax_minor

-- A twelfth of the annual tax on twelve times the gross.
unfoldable pub income_tax_of : CalcConfig → ℤ → ℕ
income_tax_of cfg gross =
    if cfg.deduct_income_tax then round_div (compute_annual_income_tax (gross *ℤ pos 12)) 12 else 0

-- The slip of a month with a CTC above zero.
slip_lines : CalcConfig → Option ℕ → ℕ → SalaryBreakdown
slip_lines cfg month ctc =
    let basic = round_div (ctc * cfg.basic_pct) 100 in
    let pf = pf_of cfg basic in
    let gross = pos ctc -ℤ pos pf in
    let hra = round_div (basic * cfg.hra_pct) 100 in
    let special = gross -ℤ pos basic -ℤ pos hra in
    let prof_tax = prof_tax_of cfg month in
    let income_tax = income_tax_of cfg gross in
    let total_deduction = pos pf +ℤ pos prof_tax +ℤ pos income_tax in
    record {
      ctc_minor = pos ctc;
      basic_minor = pos basic;
      hra_minor = pos hra;
      special_allowance_minor = special;
      employer_pf_minor = pos pf;
      gross_minor = gross;
      employee_pf_minor = pos pf;
      professional_tax_minor = pos prof_tax;
      income_tax_minor = pos income_tax;
      total_deduction_minor = total_deduction;
      net_minor = gross -ℤ total_deduction;
    }

unfoldable pub compute_breakdown : ℤ → CalcConfig → Option ℕ → SalaryBreakdown
unfolding slip_lines
compute_breakdown monthly_ctc_minor cfg month =
    let ctc = pos_part monthly_ctc_minor in if ctc == 0 then zero_slip else slip_lines cfg month ctc
