-- ===== src/Payroll/Prorate/Shares.antt =====
-- How far the prorated lines are from adding up: app/core/payroll.py, `prorate_breakdown`.
use avora_be.Prelude.{
  ℕ, zero, suc, min, ◌≢◌, ◌*◌, ◌<◌, ◌≡◌, refl, ap, sym, subst, arith, ◌==◌, Bool-cases, ◌⊎◌, inl,
  inr,
}
use avora_be.Prelude.Int.{ℤ, pos, pos_part, ◌+ℤ◌, ◌≤ℤ◌, int_laws}
use avora_be.Payroll.Slip.{CalcConfig, SalaryBreakdown, zero_slip}
use avora_be.Payroll.Slip.AddsUp.{AddsUp}
use avora_be.Payroll.Prorate.Full.{prorate_breakdown-full}
use avora_be.Payroll.Prorate.{
  Ratio, round_share, scale, scaled_slip, attendance_ratio, prorate_breakdown,
}
use avora_be.Payroll.Prorate.Nearest.{Near, round_share-Near, three_shares}

-- What holds of a slip prorated from a full one: the statutory charges are flat, and the earnings
-- may miss the gross by two paise, since each is rounded by itself.
pub record Prorated (full s : SalaryBreakdown) : Type 0 where
  pub professional_tax : s.professional_tax_minor ≡ full.professional_tax_minor
  pub income_tax : s.income_tax_minor ≡ full.income_tax_minor
  pub net : s.net_minor +ℤ s.total_deduction_minor ≡ s.gross_minor
  pub deductions :
      s.employee_pf_minor +ℤ s.professional_tax_minor +ℤ s.income_tax_minor
      ≡ s.total_deduction_minor
  pub halves : s.employee_pf_minor ≡ s.employer_pf_minor
  pub over : s.basic_minor +ℤ s.hra_minor +ℤ s.special_allowance_minor ≤ℤ s.gross_minor +ℤ pos 2
  pub under : s.gross_minor ≤ℤ s.basic_minor +ℤ s.hra_minor +ℤ s.special_allowance_minor +ℤ pos 2

scaled_slip-Prorated :
    (cfg : CalcConfig) (b : SalaryBreakdown) (ratio : Ratio)
    → 0 < ratio.den
    → AddsUp cfg b
    → Prorated b (scaled_slip b ratio)
unfolding scaled_slip scale
scaled_slip-Prorated cfg b ratio h adds =
    let (over, under) =
      three_shares ratio.num ratio.den h b.basic_minor b.hra_minor b.special_allowance_minor
        b.gross_minor adds.earnings in
    record {
      professional_tax = refl;
      income_tax = refl;
      net = omega int_laws;
      deductions = refl;
      halves = ap (λ m. round_share m ratio.num ratio.den) adds.halves;
      over = over;
      under = under;
    }

-- The figures of a slip that are the same share of those of the full slip, each to half a paisa.
pub record Shared (full s : SalaryBreakdown) (num den : ℕ) : Type 0 where
  pub ctc : Near s.ctc_minor full.ctc_minor num den
  pub basic : Near s.basic_minor full.basic_minor num den
  pub hra : Near s.hra_minor full.hra_minor num den
  pub special : Near s.special_allowance_minor full.special_allowance_minor num den
  pub employer_pf : Near s.employer_pf_minor full.employer_pf_minor num den
  pub gross : Near s.gross_minor full.gross_minor num den
  pub employee_pf : Near s.employee_pf_minor full.employee_pf_minor num den

scaled_slip-Shared :
    (b : SalaryBreakdown) (ratio : Ratio)
    → 0 < ratio.den
    → Shared b (scaled_slip b ratio) ratio.num ratio.den
unfolding scaled_slip scale
scaled_slip-Shared b ratio h =
    let near = λ (m : ℤ). round_share-Near m ratio.num ratio.den h in
    record {
      ctc = near b.ctc_minor;
      basic = near b.basic_minor;
      hra = near b.hra_minor;
      special = near b.special_allowance_minor;
      employer_pf = near b.employer_pf_minor;
      gross = near b.gross_minor;
      employee_pf = near b.employee_pf_minor;
    }

-- A slip by a share above zero.
scaled_slip-of_share :
    (cfg : CalcConfig) (b : SalaryBreakdown) (num den : ℕ) (ratio : Ratio)
    → 0 < den
    → ratio ≡ record { num = num; den = den }
    → AddsUp cfg b
    → Shared b (scaled_slip b ratio) num den × Prorated b (scaled_slip b ratio)
scaled_slip-of_share cfg b num den ratio h is adds =
    subst (λ r. Shared b (scaled_slip b r) num den × Prorated b (scaled_slip b r)) (sym is)
      (
        scaled_slip-Shared b (record { num = num; den = den }) h,
        scaled_slip-Prorated cfg b (record { num = num; den = den }) h adds,
      )

ratio-eq_zero :
    (payable : ℤ) (total : ℕ)
    → (attendance_ratio payable total).num ≡ 0
    → (0 < total) × (pos_part payable ≡ 0)
unfolding attendance_ratio
ratio-eq_zero payable total h = ground arith

-- A share above zero: a month without days, or one with a payable day and the share by days.
ratio-above_zero :
    (payable : ℤ) (total : ℕ)
    → (attendance_ratio payable total).num ≢ 0
    → (total ≡ 0)
      ⊎ ((0 < total)
          × (0 < pos_part payable)
          × (attendance_ratio payable total
              ≡ record { num = min (pos_part payable) (100 * total); den = 100 * total }))
unfolding attendance_ratio
ratio-above_zero payable zero h = inl refl
ratio-above_zero payable (suc n) h = inr (omega arith, ground arith, ground arith)

-- A slip prorated from one that adds up is one of three. Where a month of some days has no payable
-- day, it is all zero. In a month of no days, it is the full slip. Otherwise its CTC, earnings, gross
-- and PF are those of the full slip by payable days to days of the month, at most all of them, each
-- to half a paisa; the professional and the income tax are those of the full slip, the deductions and
-- the net add up, the two PF halves are one figure, and the earnings are within two paise of the
-- gross.
pub prorate_breakdown-Prorated :
    (cfg : CalcConfig) (b : SalaryBreakdown) (payable : ℤ) (total_days : ℕ)
    → AddsUp cfg b
    → ((0 < total_days)
        × (pos_part payable ≡ 0)
        × (prorate_breakdown b payable total_days ≡ zero_slip))
      ⊎ (((total_days ≡ 0) × (prorate_breakdown b payable total_days ≡ b))
          ⊎ ((0 < total_days)
              × (0 < pos_part payable)
              × Shared b
                  (prorate_breakdown b payable total_days)
                  (min (pos_part payable) (100 * total_days))
                  (100 * total_days)
              × Prorated b (prorate_breakdown b payable total_days)))
unfolding prorate_breakdown
prorate_breakdown-Prorated cfg b payable total_days adds =
    let ratio = attendance_ratio payable total_days in
    elim (Bool-cases (ratio.num == 0)) [
      | inl z ↦
          let (days, none_paid) = ratio-eq_zero payable total_days (ground arith) in
          inl (days, none_paid, rw z)
      | inr nz ↦ inr (elim (ratio-above_zero payable total_days (ground arith)) [
        | inl no_days ↦
            inl (
              no_days,
              prorate_breakdown-full cfg b payable total_days adds (omega (arith, no_days)),
            )
        | inr (days, paid, is) ↦
            let (shared, prorated) =
              scaled_slip-of_share cfg b (min (pos_part payable) (100 * total_days))
                (100 * total_days) ratio (omega (arith, days)) is adds in
            inr (days, paid, rw nz shared, rw nz prorated)
      ])
    ]
