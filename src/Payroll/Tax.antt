-- ===== src/Payroll/Tax.antt =====
-- Income tax under the new regime: app/core/payroll.py, lines 33 to 77. Amounts are in paise.
-- `round(x / 100)` is taken on the exact quotient; Python rounds the float quotient, which gives
-- the same integer below 2 ^ 46 paise.
pub mod Slabs
pub mod TakeHome
mod Tests
use avora_be.Prelude.{ℕ, ◌+◌, ◌-◌, ◌*◌, min, Option, none, some, List, [], ◌∷◌, leb, if◌then◌else◌}
use avora_be.Prelude.Int.{ℤ, pos, pos_part, ◌-ℤ◌}
use avora_be.Prelude.Round.{round_div}

abbrev pub rupee : ℕ
rupee = 100

abbrev pub standard_deduction_minor : ℕ
standard_deduction_minor = 75_000 * rupee

abbrev pub rebate_taxable_limit_minor : ℕ
rebate_taxable_limit_minor = 1_200_000 * rupee

-- A row of the slab table: no upper bound means no cap.
pub record Slab : Type 0 where
  pub lower : ℕ
  pub upper : Option ℕ
  pub rate : ℕ

abbrev pub slab : ℕ → Option ℕ → ℕ → Slab
slab lower upper rate = record { lower = lower; upper = upper; rate = rate }

abbrev pub tax_slabs_minor : List Slab
tax_slabs_minor =
    slab 0 (some (400_000 * rupee)) 0
    ∷ slab (400_000 * rupee) (some (800_000 * rupee)) 5
    ∷ slab (800_000 * rupee) (some (1_200_000 * rupee)) 10
    ∷ slab (1_200_000 * rupee) (some (1_600_000 * rupee)) 15
    ∷ slab (1_600_000 * rupee) (some (2_000_000 * rupee)) 20
    ∷ slab (2_000_000 * rupee) (some (2_400_000 * rupee)) 25
    ∷ slab (2_400_000 * rupee) none 30
    ∷ []

abbrev pub band_top : ℕ → Option ℕ → ℕ
band_top taxable (some upper) = min taxable upper
band_top taxable none = taxable

-- The loop over the slabs, with its `break`.
pub add_slabs : ℕ → List Slab → ℕ → ℕ
add_slabs taxable [] tax = tax
add_slabs taxable (s ∷ rest) tax =
    let next =
      add_slabs taxable rest
        (tax + round_div ((band_top taxable s.upper - s.lower) * s.rate) 100) in
    if leb taxable s.lower then tax else next

-- `max(0, gross - deduction)` is the positive part of the difference.
pub taxable_minor : ℤ → ℕ
taxable_minor annual_gross_minor = pos_part (annual_gross_minor -ℤ pos standard_deduction_minor)

unfoldable pub compute_annual_income_tax : ℤ → ℕ
unfolding taxable_minor
compute_annual_income_tax annual_gross_minor =
    let taxable = taxable_minor annual_gross_minor in
    if leb taxable rebate_taxable_limit_minor
    then 0
    else min (add_slabs taxable tax_slabs_minor 0) (taxable - rebate_taxable_limit_minor)
