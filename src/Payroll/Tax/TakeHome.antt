-- ===== src/Payroll/Tax/TakeHome.antt =====
-- What the annual tax leaves of a salary: app/core/payroll.py, `compute_annual_income_tax`.
use native.Mathlib.Decide.{dec_lt}
use avora_be.Prelude.{ℕ, ◌+◌, ◌-◌, ◌≤◌, ◌<◌, min, ◌≡◌, ◌↔◌, arith}
use avora_be.Prelude.Int.{ℤ, pos, ◌≤ℤ◌, ◌+ℤ◌, int_laws, int_signs}
use avora_be.Payroll.Tax.{
  tax_slabs_minor, rebate_taxable_limit_minor, standard_deduction_minor, add_slabs, taxable_minor,
  compute_annual_income_tax,
}
use avora_be.Payroll.Tax.Slabs.{
  owed, limit_owes, tax_slabs-IsContiguous, add_slabs-owed, owed_mono, owed_step,
}

abbrev slab_sum : ℕ → ℕ
slab_sum x = owed x tax_slabs_minor

slab_loop : (x : ℕ) → add_slabs x tax_slabs_minor 0 ≡ slab_sum x
slab_loop x = omega (arith, add_slabs-owed x 0 tax_slabs-IsContiguous)

-- Above the rebate limit the annual tax is the sum over all slabs of the slab's rounded share, or
-- the excess over the limit where that is less.
pub compute_annual_income_tax-owed :
    (gross : ℤ)
    → rebate_taxable_limit_minor < taxable_minor gross
    → compute_annual_income_tax gross
      ≡ min
          (owed (taxable_minor gross) tax_slabs_minor)
          (taxable_minor gross - rebate_taxable_limit_minor)
unfolding compute_annual_income_tax
compute_annual_income_tax-owed gross h = ground (arith, slab_loop (taxable_minor gross))

taxable_mono : (g h : ℤ) → g ≤ℤ h → taxable_minor g ≤ taxable_minor h
unfolding taxable_minor
taxable_mono g h le = omega int_signs

taxable_step : (g h : ℤ) → g ≤ℤ h → g +ℤ pos (taxable_minor h) ≤ℤ h +ℤ pos (taxable_minor g)
unfolding taxable_minor
taxable_step g h le = omega int_signs

-- The tax as a function of the taxable income.
abbrev tax_on : ℕ → ℕ → ℕ
tax_on x s = min s (x - rebate_taxable_limit_minor)

tax_cases :
    (g : ℤ) → compute_annual_income_tax g ≡ tax_on (taxable_minor g) (slab_sum (taxable_minor g))
unfolding compute_annual_income_tax
tax_cases g = ground (arith, slab_loop (taxable_minor g))

-- A higher salary pays no less tax and keeps no less after tax.
pub take_home_mono :
    (g h : ℤ)
    → g ≤ℤ h
    → (compute_annual_income_tax g ≤ compute_annual_income_tax h)
      × (g +ℤ pos (compute_annual_income_tax h) ≤ℤ h +ℤ pos (compute_annual_income_tax g))
take_home_mono g h le =
    let up = taxable_mono g h le in
    let more = owed_mono (taxable_minor g) (taxable_minor h) tax_slabs_minor up in
    let step = owed_step (taxable_minor g) (taxable_minor h) tax_slabs-IsContiguous up in
    (
      omega (arith, tax_cases g, tax_cases h, up, more),
      omega (int_laws, tax_cases g, tax_cases h, up, more, step, taxable_step g h le),
    )

owes_above : (x : ℕ) → rebate_taxable_limit_minor < x → 1 ≤ slab_sum x
owes_above x lt =
    omega (arith, limit_owes, owed_mono rebate_taxable_limit_minor x tax_slabs_minor (omega arith))

-- No tax is due just when the annual gross is at most the deduction and the rebate limit together.
pub tax-eq_zero_iff :
    (g : ℤ)
    → (compute_annual_income_tax g ≡ 0)
      ↔ (g ≤ℤ pos (standard_deduction_minor + rebate_taxable_limit_minor))
unfolding taxable_minor
tax-eq_zero_iff g = (
  λ e. elim (dec_lt rebate_taxable_limit_minor (taxable_minor g)) [
    | yes lt ↦ absurd (omega (arith, tax_cases g, owes_above (taxable_minor g) lt))
    | no le ↦ omega int_signs
  ],
  λ le. omega (int_signs, tax_cases g),
)
