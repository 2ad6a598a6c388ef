-- ===== src/Payroll/Slip/AddsUp.antt =====
-- The lines of a slip add up: app/core/payroll.py, `compute_breakdown`.
use avora_be.Prelude.{ℕ, ◌*◌, refl, ◌==◌, Bool-cases, inl, inr, ◌≤◌, ◌≡◌, Option, arith}
use avora_be.Prelude.Int.{ℤ, pos, pos_part, ◌+ℤ◌, ◌≤ℤ◌, int_laws}
use avora_be.Prelude.Round.{round_div}
use avora_be.Payroll.Slip.{
  CalcConfig, SalaryBreakdown, zero_slip, compute_breakdown, slip_lines, pf_of, default_config,
}

-- The earnings and the employer's PF make up the CTC, the deductions their total, and the net is
-- what they leave of the gross; both PF halves are one figure, at most the cap.
pub record AddsUp (cfg : CalcConfig) (s : SalaryBreakdown) : Type 0 where
  pub earnings : s.basic_minor +ℤ s.hra_minor +ℤ s.special_allowance_minor ≡ s.gross_minor
  pub cost : s.gross_minor +ℤ s.employer_pf_minor ≡ s.ctc_minor
  pub deductions :
      s.employee_pf_minor +ℤ s.professional_tax_minor +ℤ s.income_tax_minor
      ≡ s.total_deduction_minor
  pub net : s.net_minor +ℤ s.total_deduction_minor ≡ s.gross_minor
  pub halves : s.employee_pf_minor ≡ s.employer_pf_minor
  pub capped : s.employee_pf_minor ≤ℤ pos cfg.pf_cap_minor

pf_of-le : (cfg : CalcConfig) (basic : ℕ) → pf_of cfg basic ≤ cfg.pf_cap_minor
unfolding pf_of
pf_of-le cfg basic = ground arith

slip_lines-AddsUp :
    (cfg : CalcConfig) (month : Option ℕ) (ctc : ℕ) → AddsUp cfg (slip_lines cfg month ctc)
unfolding slip_lines
slip_lines-AddsUp cfg month ctc = record {
  earnings = omega int_laws;
  cost = omega int_laws;
  deductions = omega int_laws;
  net = omega int_laws;
  halves = omega int_laws;
  capped = omega (arith, pf_of-le);
}

zero_slip-AddsUp : (cfg : CalcConfig) → AddsUp cfg zero_slip
zero_slip-AddsUp cfg = record {
  earnings = omega int_laws;
  cost = omega int_laws;
  deductions = omega int_laws;
  net = omega int_laws;
  halves = omega int_laws;
  capped = omega arith;
}

-- Every slip adds up, also the all-zero one.
pub compute_breakdown-AddsUp :
    (ctc : ℤ) (cfg : CalcConfig) (month : Option ℕ) → AddsUp cfg (compute_breakdown ctc cfg month)
unfolding compute_breakdown
compute_breakdown-AddsUp ctc cfg month = elim (Bool-cases (pos_part ctc == 0)) [
  | inl z ↦ rw z (zero_slip-AddsUp cfg)
  | inr nz ↦ rw nz (slip_lines-AddsUp cfg month (pos_part ctc))
]

zero_pf : pos 0 ≡ pos (pf_of default_config 0)
unfolding pf_of round_div
zero_pf = refl

-- The PF line is that of the slip's Basic.
pub compute_breakdown-pf_of :
    (ctc : ℤ) (month : Option ℕ)
    → let s = compute_breakdown ctc default_config month in
      (basic : ℕ) × (s.basic_minor ≡ pos basic)
      × (s.employee_pf_minor ≡ pos (pf_of default_config basic))
unfolding compute_breakdown
compute_breakdown-pf_of ctc month = elim (Bool-cases (pos_part ctc == 0)) [
  | inl z ↦ rw z (0, refl, zero_pf)
  | inr nz ↦ rw nz (round_div (pos_part ctc * 30) 100, refl, refl)
]
