-- ===== src/Payroll/Prorate/Tests.antt =====
-- The month of the reference sheet: 40,000 rupees for 26 of 30 days.
use avora_be.Prelude.{ℕ, ◌+◌, ◌*◌, ◌<◌, ◌≡◌, ◌≢◌, ◌⊎◌, refl, ap, min, some, arith}
use avora_be.Prelude.Int.{pos, pos_part, ◌+ℤ◌, ◌-ℤ◌, ◌*ℤ◌}
use avora_be.Prelude.Round.{round_div}
use avora_be.Payroll.Tax.{compute_annual_income_tax}
use avora_be.Payroll.Slip.{
  SalaryBreakdown, default_config, compute_breakdown, pf_of, prof_tax_of, income_tax_of, zero_slip,
}
use avora_be.Payroll.Slip.AddsUp.{compute_breakdown-AddsUp}
use avora_be.Payroll.Prorate.{prorate_breakdown, scale, round_share, employer_contributions, eps_of}
use avora_be.Payroll.Prorate.Shares.{Shared, Prorated, prorate_breakdown-Prorated}
use avora_be.Payroll.Prorate.Full.{prorate_breakdown-full}
use avora_be.Payroll.Prorate.Contributions.{Charged, default_contributions}

abbrev full_slip : SalaryBreakdown
full_slip = compute_breakdown (pos 4_000_000) default_config (some 7)

-- Somebody whose PF is capped, for three of 30 days.
abbrev short_month : SalaryBreakdown
short_month =
    prorate_breakdown (compute_breakdown (pos 33_333_400) default_config (some 7)) (pos 300) 30

reference_sheet : (prorate_breakdown full_slip (pos 2_600) 30).net_minor ≡ pos 3_197_067
unfolding compute_breakdown pf_of prof_tax_of income_tax_of compute_annual_income_tax
    prorate_breakdown scale round_share round_div ◌-ℤ◌ ◌+ℤ◌ ◌*ℤ◌
reference_sheet = refl

-- The EPS of the prorated Basic is above the prorated PF, so the halves do not agree.
halves_apart :
    let c = employer_contributions short_month.basic_minor short_month.employee_pf_minor in
    pos (c.epf_employer_minor + c.eps_minor) ≢ short_month.employee_pf_minor
unfolding employer_contributions eps_of compute_breakdown pf_of prof_tax_of income_tax_of
    compute_annual_income_tax prorate_breakdown scale round_share round_div ◌-ℤ◌ ◌+ℤ◌ ◌*ℤ◌
halves_apart h = absurd (omega (arith, ap pos_part h))

abbrev month_days : ℕ
month_days = 30

prorate_breakdown-Prorated_example :
    ((0 < 30)
      × (pos_part (pos 2_600) ≡ 0)
      × (prorate_breakdown full_slip (pos 2_600) 30 ≡ zero_slip))
    ⊎ (((month_days ≡ 0) × (prorate_breakdown full_slip (pos 2_600) 30 ≡ full_slip))
        ⊎ ((0 < 30)
            × (0 < pos_part (pos 2_600))
            × Shared full_slip
                (prorate_breakdown full_slip (pos 2_600) 30)
                (min (pos_part (pos 2_600)) (100 * 30))
                (100 * 30)
            × Prorated full_slip (prorate_breakdown full_slip (pos 2_600) 30)))
prorate_breakdown-Prorated_example =
    prorate_breakdown-Prorated default_config full_slip (pos 2_600) 30
      (compute_breakdown-AddsUp (pos 4_000_000) default_config (some 7))

prorate_breakdown-full_example : prorate_breakdown full_slip (pos 3_100) 31 ≡ full_slip
prorate_breakdown-full_example =
    prorate_breakdown-full default_config full_slip (pos 3_100) 31
      (compute_breakdown-AddsUp (pos 4_000_000) default_config (some 7)) (omega arith)

default_contributions_example :
    let s = compute_breakdown (pos 4_000_000) default_config (some 7) in
    let c = employer_contributions s.basic_minor s.employee_pf_minor in
    Charged (pos_part s.basic_minor) (pos_part s.employee_pf_minor) c
    × (pos (c.epf_employer_minor + c.eps_minor) ≡ s.employee_pf_minor)
default_contributions_example = default_contributions (pos 4_000_000) (some 7)
