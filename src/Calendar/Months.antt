-- ===== src/Calendar/Months.antt =====
-- Months and years laid end to end.
use native.Mathlib.Nat.{le_refl, le_trans}
use native.Mathlib.Decide.{le_ind}
use avora_be.Prelude.{ℕ, zero, suc, ◌+◌, ◌≤◌, ◌≡◌, refl, arith}
use avora_be.Calendar.{is_leap, month_length, year_length, days_before_year, days_before_month}

pub days_before_year-suc :
    (y : ℕ) → 1 ≤ y → days_before_year (suc y) ≡ days_before_year y + year_length y
unfolding days_before_year year_length is_leap
days_before_year-suc y h = ground arith

pub days_before_month-suc :
    (y m : ℕ) → 1 ≤ m → days_before_month y (suc m) ≡ days_before_month y m + month_length y m
unfolding days_before_month
days_before_month-suc y zero h = absurd (omega arith)
days_before_month-suc y (suc m) h = refl

-- The twelve months make up the year.
pub twelve_months : (y : ℕ) → days_before_month y 13 ≡ year_length y
unfolding days_before_month month_length year_length
twelve_months y = ground arith

pub month_length_bounds : (y m : ℕ) → (28 ≤ month_length y m) × (month_length y m ≤ 31)
unfolding month_length
month_length_bounds y m = ground arith

pub months_mono : (y m n : ℕ) → 1 ≤ m → m ≤ n → days_before_month y m ≤ days_before_month y n
months_mono y m n h =
    le_ind (λ k. days_before_month y m ≤ days_before_month y k) (le_refl _)
      (λ k le ih. omega (arith, days_before_month-suc y k (le_trans h le))) n

pub years_mono : (y z : ℕ) → 1 ≤ y → y ≤ z → days_before_year y ≤ days_before_year z
years_mono y z h =
    le_ind (λ k. days_before_year y ≤ days_before_year k) (le_refl _)
      (λ k le ih. omega (arith, days_before_year-suc k (le_trans h le))) z
