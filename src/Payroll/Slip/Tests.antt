-- ===== src/Payroll/Slip/Tests.antt =====
-- The slip of app/core/payroll.py's own example, and the theorems at inputs that meet their
-- hypotheses.
use avora_be.Prelude.{◌≡◌, refl, false, none, some, arith}
use avora_be.Prelude.Int.{pos, ◌+ℤ◌, ◌-ℤ◌, ◌≤ℤ◌}
use avora_be.Prelude.Round.{round_div}
use avora_be.Payroll.Slip.{
  CalcConfig, default_config, compute_breakdown, slip_lines, pf_of, income_tax_of, prof_tax_of,
}
use avora_be.Payroll.Slip.NetPay.{default_net_nonneg}

abbrev untaxed : CalcConfig
untaxed = record default_config { deduct_income_tax = false }

-- CTC 50,000: net 46,200.
reference_net : (compute_breakdown (pos 5_000_000) untaxed none).net_minor ≡ pos 4_620_000
unfolding compute_breakdown slip_lines pf_of income_tax_of prof_tax_of round_div ◌-ℤ◌ ◌+ℤ◌
reference_net = refl

default_net_nonneg_example :
    pos 0 ≤ℤ (compute_breakdown (pos 40_000) default_config (some 2)).net_minor
default_net_nonneg_example = default_net_nonneg (pos 40_000) (some 2) (omega arith)
