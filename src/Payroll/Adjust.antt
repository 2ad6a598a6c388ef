-- ===== src/Payroll/Adjust.antt =====
-- Adjustments of a payroll line: app/services/payroll_service.py, lines 172 to 280. Days are in
-- hundredths, as the stored overrides have them; amounts are not negative, which
-- app/schemas/payroll_adjustment.py asks.
use avora_be.Prelude.{
  ℕ, ◌+◌, ◌-◌, ◌*◌, min, Bool, true, false, ◌&&◌, Option, none, some, List, [], ◌∷◌, if◌then◌else◌,
}
use avora_be.Prelude.Int.{ℤ, pos, ◌+ℤ◌, ◌-ℤ◌}
use avora_be.Payroll.Slip.{SalaryBreakdown}

pub data PayrollAdjustmentKind : Type 0 where
  earning deduction override : PayrollAdjustmentKind

pub data PayrollAdjustmentTarget : Type 0 where
  basic hra special_allowance employee_pf professional_tax income_tax present_days paid_leave_days
        lop_days payable_days net_pay :
      PayrollAdjustmentTarget

pub record PayrollAdjustment : Type 0 where
  pub kind : PayrollAdjustmentKind
  pub target : Option PayrollAdjustmentTarget
  pub amount_minor : ℕ

abbrev pub is_override : PayrollAdjustmentKind → Bool
is_override PayrollAdjustmentKind.override = true
is_override _ = false

abbrev pub is_earning : PayrollAdjustmentKind → Bool
is_earning PayrollAdjustmentKind.earning = true
is_earning _ = false

abbrev pub is_deduction : PayrollAdjustmentKind → Bool
is_deduction PayrollAdjustmentKind.deduction = true
is_deduction _ = false

abbrev pub targets_present : Option PayrollAdjustmentTarget → Bool
targets_present (some PayrollAdjustmentTarget.present_days) = true
targets_present _ = false

abbrev pub targets_paid : Option PayrollAdjustmentTarget → Bool
targets_paid (some PayrollAdjustmentTarget.paid_leave_days) = true
targets_paid _ = false

abbrev targets_lop : Option PayrollAdjustmentTarget → Bool
targets_lop (some PayrollAdjustmentTarget.lop_days) = true
targets_lop _ = false

abbrev targets_payable : Option PayrollAdjustmentTarget → Bool
targets_payable (some PayrollAdjustmentTarget.payable_days) = true
targets_payable _ = false

-- The amount of the first override of a target.
abbrev pub first_override :
    (Option PayrollAdjustmentTarget → Bool) → List PayrollAdjustment → Option ℕ
first_override aims [] = none
first_override aims (a ∷ rest) =
    if is_override a.kind && aims a.target then some a.amount_minor else first_override aims rest

abbrev or_computed : Option ℕ → ℕ → ℕ
or_computed none computed = computed
or_computed (some amount) computed = amount

unfoldable pub day_override :
    (Option PayrollAdjustmentTarget → Bool) → List PayrollAdjustment → ℕ → ℕ
day_override aims adjustments computed = or_computed (first_override aims adjustments) computed

unfoldable pub lop_override : List PayrollAdjustment → ℕ → ℕ → ℕ
lop_override adjustments computed_lop base_days = elim (first_override targets_lop adjustments) [
  | some amount ↦ min (100 * base_days) amount
  | none ↦ elim (first_override targets_payable adjustments) [
    | some amount ↦ 100 * base_days - min (100 * base_days) amount
    | none ↦ computed_lop
  ]
]

-- The variables of the loop of `_apply_adjustments`.
pub record Fields : Type 0 where
  pub basic : ℤ
  pub hra : ℤ
  pub special : ℤ
  pub employee_pf : ℤ
  pub professional_tax : ℤ
  pub income_tax : ℤ
  pub net_override : Option ℤ

unfoldable pub force : Option PayrollAdjustmentTarget → ℤ → Fields → Fields
force (some PayrollAdjustmentTarget.basic) v f = record f { basic = v }
force (some PayrollAdjustmentTarget.hra) v f = record f { hra = v }
force (some PayrollAdjustmentTarget.special_allowance) v f = record f { special = v }
force (some PayrollAdjustmentTarget.employee_pf) v f = record f { employee_pf = v }
force (some PayrollAdjustmentTarget.professional_tax) v f = record f { professional_tax = v }
force (some PayrollAdjustmentTarget.income_tax) v f = record f { income_tax = v }
force (some PayrollAdjustmentTarget.net_pay) v f = record f { net_override = some v }
force _ v f = f

abbrev pub apply_overrides : List PayrollAdjustment → Fields → Fields
apply_overrides [] f = f
apply_overrides (a ∷ rest) f =
    apply_overrides rest (if is_override a.kind then force a.target (pos a.amount_minor) f else f)

abbrev pub sum_of : (PayrollAdjustmentKind → Bool) → List PayrollAdjustment → ℕ
sum_of p [] = 0
sum_of p (a ∷ rest) = if p a.kind then a.amount_minor + sum_of p rest else sum_of p rest

abbrev pub fields_of : SalaryBreakdown → Fields
fields_of s = record {
  basic = s.basic_minor;
  hra = s.hra_minor;
  special = s.special_allowance_minor;
  employee_pf = s.employee_pf_minor;
  professional_tax = s.professional_tax_minor;
  income_tax = s.income_tax_minor;
  net_override = none;
}

abbrev pub or_net : Option ℤ → ℤ → ℤ
or_net none computed = computed
or_net (some forced) computed = forced

unfoldable pub apply_adjustments :
    SalaryBreakdown → List PayrollAdjustment → SalaryBreakdown × ℕ × ℕ
unfolding force
apply_adjustments prorated adjustments =
    let f = apply_overrides adjustments (fields_of prorated) in
    let gross = f.basic +ℤ f.hra +ℤ f.special in
    let total_deduction = f.employee_pf +ℤ f.professional_tax +ℤ f.income_tax in
    let earnings = sum_of is_earning adjustments in
    let deductions = sum_of is_deduction adjustments in
    let base_net = or_net f.net_override (gross -ℤ total_deduction) in
    (
      record prorated {
        basic_minor = f.basic;
        hra_minor = f.hra;
        special_allowance_minor = f.special;
        employee_pf_minor = f.employee_pf;
        professional_tax_minor = f.professional_tax;
        income_tax_minor = f.income_tax;
        gross_minor = gross;
        total_deduction_minor = total_deduction;
        net_minor = base_net +ℤ pos earnings -ℤ pos deductions;
      },
      earnings,
      deductions,
    )
