-- ===== src/Payroll/Prorate.antt =====
-- Proration and the employer's share: app/core/payroll.py, lines 146 to 260. Days are in hundredths
-- and the payable share of the month is a fraction; `round` is taken on the exact product. (Python
-- rounds the ratio to a float first, which can move a product that is within a float's error of
-- half a paisa to the other neighbour.)
mod Nearest
pub mod Shares
mod Contributions
pub mod Full
mod Tests
use avora_be.Prelude.{ℕ, zero, suc, ◌+◌, ◌-◌, ◌*◌, min, Bool, if◌then◌else◌, ◌==◌, leb}
use avora_be.Prelude.Int.{ℤ, pos, negsuc, pos_part, ◌+ℤ◌, ◌-ℤ◌}
use avora_be.Prelude.Round.{round_div}
use avora_be.Payroll.Slip.{SalaryBreakdown, zero_slip}

abbrev pub negate : ℕ → ℤ
negate zero = pos 0
negate (suc n) = negsuc n

-- `round(minor * num / den)`: half to even is symmetric about zero.
unfoldable pub round_share : ℤ → ℕ → ℕ → ℤ
round_share (pos n) num den = pos (round_div (n * num) den)
round_share (negsuc n) num den = negate (round_div (suc n * num) den)

unfoldable pub monthly_ctc_minor : ℤ → Bool → ℤ
unfolding round_share
monthly_ctc_minor amount is_annual = if is_annual then round_share amount 1 12 else amount

abbrev pub pf_wage_ceiling_minor : ℕ
pf_wage_ceiling_minor = 1_500_000

abbrev pub eps_cap_minor : ℕ
eps_cap_minor = 125_000

pub record EmployerContributions : Type 0 where
  pub epf_employer_minor : ℕ
  pub eps_minor : ℕ
  pub edli_minor : ℕ
  pub admin_minor : ℕ
  pub total_minor : ℕ

-- The pension share of a Basic that is not negative.
pub eps_of : ℕ → ℕ
eps_of basic =
    if leb pf_wage_ceiling_minor basic
    then eps_cap_minor
    else round_div (min basic pf_wage_ceiling_minor * 833) 10_000

-- The rates are 8.33%, 0.5% and 0.5%; `max(0, employee_pf - eps)` is the subtraction on ℕ.
unfoldable pub employer_contributions : ℤ → ℤ → EmployerContributions
unfolding eps_of
employer_contributions basic_minor employee_pf_minor =
    let basic = pos_part basic_minor in
    let eps = eps_of basic in
    let epf_employer = pos_part employee_pf_minor - eps in
    let edli = round_div (min basic pf_wage_ceiling_minor * 5) 1_000 in
    let admin = round_div (basic * 5) 1_000 in
    record {
      epf_employer_minor = epf_employer;
      eps_minor = eps;
      edli_minor = edli;
      admin_minor = admin;
      total_minor = epf_employer + eps + edli + admin;
    }

-- The share of the month as a fraction.
pub record Ratio : Type 0 where
  pub num : ℕ
  pub den : ℕ

unfoldable pub attendance_ratio : ℤ → ℕ → Ratio
attendance_ratio payable total_days =
    if total_days == 0
    then record { num = 1; den = 1 }
    else record { num = min (pos_part payable) (100 * total_days); den = 100 * total_days }

unfoldable pub scale : Ratio → ℤ → ℤ
unfolding round_share
scale ratio minor = round_share minor ratio.num ratio.den

-- The slip at a share above zero.
unfoldable pub scaled_slip : SalaryBreakdown → Ratio → SalaryBreakdown
unfolding scale
scaled_slip b ratio =
    let employee_pf = scale ratio b.employee_pf_minor in
    let total_deduction = employee_pf +ℤ b.professional_tax_minor +ℤ b.income_tax_minor in
    let gross = scale ratio b.gross_minor in
    record {
      ctc_minor = scale ratio b.ctc_minor;
      basic_minor = scale ratio b.basic_minor;
      hra_minor = scale ratio b.hra_minor;
      special_allowance_minor = scale ratio b.special_allowance_minor;
      employer_pf_minor = scale ratio b.employer_pf_minor;
      gross_minor = gross;
      employee_pf_minor = employee_pf;
      professional_tax_minor = b.professional_tax_minor;
      income_tax_minor = b.income_tax_minor;
      total_deduction_minor = total_deduction;
      net_minor = gross -ℤ total_deduction;
    }

unfoldable pub prorate_breakdown : SalaryBreakdown → ℤ → ℕ → SalaryBreakdown
unfolding attendance_ratio scaled_slip
prorate_breakdown b payable total_days =
    let ratio = attendance_ratio payable total_days in
    if ratio.num == 0 then zero_slip else scaled_slip b ratio
