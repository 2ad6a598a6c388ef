-- ===== src/Payroll/Tax/Tests.antt =====
-- The income tax at concrete salaries, and the theorems about it at inputs that meet their
-- hypotheses.
use avora_be.Prelude.{◌+◌, ◌↔◌, ℕ, ◌-◌, ◌≤◌, ◌*◌, min, ◌≡◌, refl, arith}
use avora_be.Prelude.Int.{pos, ◌≤ℤ◌, ◌+ℤ◌, ◌-ℤ◌}
use avora_be.Payroll.Tax.{
  rupee, tax_slabs_minor, rebate_taxable_limit_minor, taxable_minor, compute_annual_income_tax,
  add_slabs,
}
use avora_be.Payroll.Tax.Slabs.{owed}
use avora_be.Payroll.Tax.TakeHome.{compute_annual_income_tax-owed, take_home_mono}

-- 24 lakh a year, in paise.
abbrev salary : ℕ
salary = 2_400_000 * rupee

tax_of_salary : compute_annual_income_tax (pos salary) ≡ 281_250 * rupee
unfolding compute_annual_income_tax ◌-ℤ◌ add_slabs avora_be.Prelude.Round.round_div
tax_of_salary = refl

compute_annual_income_tax-owed_example :
    compute_annual_income_tax (pos salary)
    ≡ min
        (owed (taxable_minor (pos salary)) tax_slabs_minor)
        (taxable_minor (pos salary) - rebate_taxable_limit_minor)
unfolding taxable_minor ◌-ℤ◌
compute_annual_income_tax-owed_example = compute_annual_income_tax-owed (pos salary) (omega arith)

take_home_mono_example :
    (compute_annual_income_tax (pos 100) ≤ compute_annual_income_tax (pos salary))
    × (pos 100 +ℤ pos (compute_annual_income_tax (pos salary))
        ≤ℤ pos salary +ℤ pos (compute_annual_income_tax (pos 100)))
take_home_mono_example = take_home_mono (pos 100) (pos salary) (omega arith)
