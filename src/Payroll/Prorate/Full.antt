-- ===== src/Payroll/Prorate/Full.antt =====
-- A month that is payable in full is not changed by proration: app/core/payroll.py.
use native.Mathlib.Decide.{dec_lt}
use native.Mathlib.Nat.{mul-le-mul_left}
use avora_be.Prelude.{ℕ, zero, suc, ◌+◌, ◌*◌, ◌≤◌, ◌<◌, ◌≡◌, ap, false, arith, ◌==◌}
use avora_be.Prelude.Int.{ℤ, pos, negsuc, pos_part, neg_part, ◌-ℤ◌, eq_of_parts, int_laws}
use avora_be.Prelude.Round.{round_div, round_div_near}
use avora_be.Payroll.Slip.{CalcConfig, SalaryBreakdown}
use avora_be.Payroll.Slip.AddsUp.{AddsUp}
use avora_be.Payroll.Prorate.{
  negate, round_share, scale, scaled_slip, attendance_ratio, prorate_breakdown,
}

-- Less than a unit apart from above.
le_below : (d x y : ℕ) → 0 < d → 2 * (d * x) ≤ 2 * (d * y) + d → x ≤ y
le_below d x y h le = elim (dec_lt y x) [
  | yes lt ↦ absurd (omega (arith, mul-le-mul_left d lt, le, h))
  | no ge ↦ omega arith
]

-- A whole number of units is rounded to itself.
round_div-mul : (n d : ℕ) → 0 < d → round_div (n * d) d ≡ n
round_div-mul n d h =
    let (up, down) = round_div_near (n * d) d h in
    let le : round_div (n * d) d ≤ n = le_below d (round_div (n * d) d) n h (omega (arith, up)) in
    let ge : n ≤ round_div (n * d) d = le_below d n (round_div (n * d) d) h (omega (arith, down)) in
    omega arith

round_share-full : (m : ℤ) (d : ℕ) → 0 < d → round_share m d d ≡ m
unfolding round_share
round_share-full (pos n) d h = ap pos (round_div-mul n d h)
round_share-full (negsuc n) d h = ap negate (round_div-mul (suc n) d h)

scaled_slip-full :
    (cfg : CalcConfig) (b : SalaryBreakdown) (d : ℕ)
    → 0 < d
    → AddsUp cfg b
    → scaled_slip b (record { num = d; den = d }) ≡ b
unfolding scaled_slip scale
scaled_slip-full cfg b d h adds =
    let whole = λ (m : ℤ). round_share-full m d h in
    let left : b.gross_minor -ℤ b.total_deduction_minor ≡ b.net_minor =
      eq_of_parts _ _ (omega (int_laws, ap pos_part adds.net, ap neg_part adds.net)) in
    ground (
      arith,
      whole b.ctc_minor,
      whole b.basic_minor,
      whole b.hra_minor,
      whole b.special_allowance_minor,
      whole b.employer_pf_minor,
      whole b.gross_minor,
      whole b.employee_pf_minor,
      left,
    )

ratio-full :
    (payable : ℤ) (total_days : ℕ)
    → 100 * total_days ≤ pos_part payable
    → (d : ℕ) × (0 < d) × (attendance_ratio payable total_days ≡ record { num = d; den = d })
unfolding attendance_ratio
ratio-full payable zero le = (1, omega arith, ground arith)
ratio-full payable (suc n) le = (100 * suc n, omega arith, ground arith)

-- If every day of the month is payable, the slip is the full one.
pub prorate_breakdown-full :
    (cfg : CalcConfig) (b : SalaryBreakdown) (payable : ℤ) (total_days : ℕ)
    → AddsUp cfg b
    → 100 * total_days ≤ pos_part payable
    → prorate_breakdown b payable total_days ≡ b
unfolding prorate_breakdown
prorate_breakdown-full cfg b payable total_days adds le =
    let (d, h, e) = ratio-full payable total_days le in
    let some_days : (d == 0) ≡ false = ground arith in
    rw (e, some_days) (scaled_slip-full cfg b d h adds)
