-- ===== src/Payroll/Prorate/Contributions.antt =====
-- The employer's PF against the employee's: app/core/payroll.py, `employer_contributions`.
use avora_be.Prelude.{
  ℕ, ◌+◌, ◌*◌, ◌≤◌, ◌<◌, ◌≡◌, refl, ap, min, max, arith, le_or_lt, inl, inr, Option,
}
use avora_be.Prelude.Int.{ℤ, pos, pos_part}
use avora_be.Prelude.Round.{round_div, round_div_near}
use avora_be.Payroll.Slip.{default_config, compute_breakdown, pf_of}
use avora_be.Payroll.Slip.AddsUp.{compute_breakdown-pf_of}
use avora_be.Payroll.Prorate.{
  EmployerContributions, eps_of, employer_contributions, eps_cap_minor, pf_wage_ceiling_minor,
}

-- A whole number of units that is the exact share n / d to half a unit.
pub record Rounded (x n d : ℕ) : Type 0 where
  pub above : 2 * (d * x) ≤ 2 * n + d
  pub below : 2 * n ≤ 2 * (d * x) + d

round_div-Rounded : (n d : ℕ) → 0 < d → Rounded (round_div n d) n d
round_div-Rounded n d h =
    let (above, below) = round_div_near n d h in
    record { above = omega (arith, above); below = omega (arith, below) }

-- What an employer pays over a Basic, with the statutory rates: the pension share is 8.33%, and
-- 1,250 rupees from a Basic of 15,000 on; the insurance is 0.5% of at most that Basic, and the
-- administration 0.5% of all of it; provident fund and pension are the employee's PF, or the pension
-- share if that is more.
pub record Charged (basic employee_pf : ℕ) (c : EmployerContributions) : Type 0 where
  pub pension : basic < 1_500_000 → Rounded c.eps_minor (basic * 833) 10_000
  pub capped_pension : 1_500_000 ≤ basic → c.eps_minor ≡ 125_000
  pub insurance : Rounded c.edli_minor (min basic 1_500_000 * 5) 1_000
  pub administration : Rounded c.admin_minor (basic * 5) 1_000
  pub halves : c.epf_employer_minor + c.eps_minor ≡ max employee_pf c.eps_minor
  pub total : c.total_minor ≡ c.epf_employer_minor + c.eps_minor + c.edli_minor + c.admin_minor

-- Below the ceiling the pension share is 8.33% of Basic, to half a paisa.
eps_of_below :
    (basic : ℕ) → basic < pf_wage_ceiling_minor → 20_000 * eps_of basic ≤ 1_666 * basic + 10_000
unfolding eps_of
eps_of_below basic h =
    let near = round_div_near (min basic pf_wage_ceiling_minor * 833) 10_000 (omega arith) in
    ground (arith, near)

eps_of_above : (basic : ℕ) → pf_wage_ceiling_minor ≤ basic → eps_of basic ≡ eps_cap_minor
unfolding eps_of
eps_of_above basic h = ground arith

-- PF at the default rate and cap is never below the pension share of the same Basic.
eps_of-le-pf_of : (basic : ℕ) → eps_of basic ≤ pf_of default_config basic
unfolding pf_of
eps_of-le-pf_of basic =
    let near = round_div_near (basic * 12) 100 (omega arith) in
    elim (le_or_lt pf_wage_ceiling_minor basic) [
      | inl above ↦ ground (arith, eps_of_above basic above, near)
      | inr below ↦ ground (arith, eps_of_below basic below, near)
    ]

-- The charges of any Basic and PF.
employer_contributions-Charged :
    (basic employee_pf : ℤ)
    → Charged (pos_part basic) (pos_part employee_pf) (employer_contributions basic employee_pf)
unfolding employer_contributions eps_of
employer_contributions-Charged basic employee_pf =
    let b = pos_part basic in
    record {
      pension = λ below.
          let near = round_div-Rounded (b * 833) 10_000 (omega arith) in
          record {
            above = ground (arith, below, near.above);
            below = ground (arith, below, near.below);
          };
      capped_pension = λ above. eps_of_above b above;
      insurance = round_div-Rounded (min b 1_500_000 * 5) 1_000 (omega arith);
      administration = round_div-Rounded (b * 5) 1_000 (omega arith);
      halves = ground arith;
      total = refl;
    }

-- On the Basic and PF of a full slip under the default configuration, an employer pays: a pension
-- share of 8.33% of the Basic to half a paisa, or 1,250 rupees from a Basic of 15,000 rupees on; an
-- insurance of 0.5% of at most that Basic and an administration charge of 0.5% of all of it, each to
-- half a paisa; provident fund and pension that are together the employee's PF, so that the two
-- halves agree; and their sum in total.
pub default_contributions :
    (ctc : ℤ) (month : Option ℕ)
    → let s = compute_breakdown ctc default_config month in
      let c = employer_contributions s.basic_minor s.employee_pf_minor in
      Charged (pos_part s.basic_minor) (pos_part s.employee_pf_minor) c
      × (pos (c.epf_employer_minor + c.eps_minor) ≡ s.employee_pf_minor)
unfolding employer_contributions
default_contributions ctc month =
    let s = compute_breakdown ctc default_config month in
    let (basic, is_basic, is_pf) = compute_breakdown-pf_of ctc month in
    (
      employer_contributions-Charged s.basic_minor s.employee_pf_minor,
      rw (is_basic, is_pf) (ap pos (omega (arith, eps_of-le-pf_of basic))),
    )
