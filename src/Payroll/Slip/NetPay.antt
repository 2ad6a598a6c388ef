-- ===== src/Payroll/Slip/NetPay.antt =====
-- What the employee is paid: app/core/payroll.py, `compute_breakdown`.
use native.Mathlib.Decide.{dec_lt}
use avora_be.Prelude.{
  ℕ, ◌+◌, ◌*◌, ◌≤◌, ◌≡◌, ◌⊎◌, inl, inr, Bool-cases, ◌-◌, true, false, Option, arith, ◌==◌,
}
use avora_be.Prelude.Int.{ℤ, pos, pos_part, ◌+ℤ◌, ◌-ℤ◌, ◌*ℤ◌, ◌≤ℤ◌, int_laws, *ℤ_parts}
use avora_be.Prelude.Round.{round_div, round_div_near}
use avora_be.Payroll.Tax.{compute_annual_income_tax}
use avora_be.Payroll.Tax.TakeHome.{take_home_mono, tax-eq_zero_iff}
use avora_be.Payroll.Slip.{
  CalcConfig, default_config, compute_breakdown, slip_lines, pf_of, income_tax_of, prof_tax_of,
}

-- The annual gross up to which no tax is due.
abbrev free : ℕ
free = 127_500_000

free_pays_nothing : compute_annual_income_tax (pos free) ≡ 0
free_pays_nothing = (tax-eq_zero_iff (pos free)).1 (omega arith)

monthly_tax_room :
    (g : ℕ)
    → let t = round_div (compute_annual_income_tax (pos g *ℤ pos 12)) 12 in
      (t ≡ 0) ⊎ (24 * t + 2 * free ≤ 24 * g + 12)
monthly_tax_room g =
    let e : pos g *ℤ pos 12 ≡ pos (g * 12) = omega (int_laws, *ℤ_parts) in
    rw e (elim (dec_lt free (g * 12)) [
      | yes lt ↦ inr (
          omega (
            int_laws,
            free_pays_nothing,
            take_home_mono (pos free) (pos (g * 12)) (omega arith),
            round_div_near (compute_annual_income_tax (pos (g * 12))) 12 (omega arith),
          ))
      | no ge ↦ inl (
          omega (
            arith,
            (tax-eq_zero_iff (pos (g * 12))).1 (omega arith),
            round_div_near (compute_annual_income_tax (pos (g * 12))) 12 (omega arith),
          ))
    ])

-- The monthly tax is nothing, or at most what the gross has above a twelfth of the free amount.
income_tax_room :
    (cfg : CalcConfig) (g : ℕ)
    → (income_tax_of cfg (pos g) ≡ 0) ⊎ (24 * income_tax_of cfg (pos g) + 2 * free ≤ 24 * g + 12)
unfolding income_tax_of
income_tax_room cfg g = ground (arith, monthly_tax_room g)

default_pf_small :
    (ctc : ℕ)
    → let pf = pf_of default_config (round_div (ctc * 30) 100) in
      (pf ≤ 180_000) × (1000 * pf ≤ 36 * ctc + 560)
unfolding pf_of
default_pf_small ctc =
    let basic = round_div (ctc * 30) 100 in
    let a = round_div_near (ctc * 30) 100 (omega arith) in
    let b = round_div_near (basic * 12) 100 (omega arith) in (omega arith, omega (arith, a, b))

slip_net_nonneg :
    (ctc : ℕ) (month : Option ℕ)
    → 40_000 ≤ ctc
    → pos 0 ≤ℤ (slip_lines default_config month ctc).net_minor
unfolding slip_lines prof_tax_of
slip_net_nonneg ctc month h =
    let pf = pf_of default_config (round_div (ctc * 30) 100) in
    let small = default_pf_small ctc in
    let e : pos ctc -ℤ pos pf ≡ pos (ctc - pf) = omega (int_laws, small) in
    rw e (elim (income_tax_room default_config (ctc - pf)) [
      | inl free_of_tax ↦ grind (int_laws, small, free_of_tax)
      | inr room ↦ grind (int_laws, small, room)
    ])

-- Under the default configuration nobody with a CTC of 400 rupees or more has a negative net pay.
pub default_net_nonneg :
    (ctc : ℤ) (month : Option ℕ)
    → pos 40_000 ≤ℤ ctc
    → pos 0 ≤ℤ (compute_breakdown ctc default_config month).net_minor
unfolding compute_breakdown
default_net_nonneg ctc month h = ground (arith, slip_net_nonneg (pos_part ctc) month)

-- Where no income tax is withheld, dropping PF raises the net by exactly twice the PF figure.
pub net-without_pf :
    (ctc : ℤ) (cfg : CalcConfig) (month : Option ℕ)
    → cfg.deduct_income_tax ≡ false
    → let with_pf = compute_breakdown ctc (record cfg { deduct_pf = true }) month in
      (compute_breakdown ctc (record cfg { deduct_pf = false }) month).net_minor
      ≡ with_pf.net_minor +ℤ with_pf.employer_pf_minor +ℤ with_pf.employee_pf_minor
unfolding compute_breakdown slip_lines pf_of income_tax_of prof_tax_of
net-without_pf ctc cfg month h = elim (Bool-cases (pos_part ctc == 0)) [
  | inl z ↦ rw z (omega int_laws)
  | inr nz ↦ rw (nz, h) (omega int_laws)
]
