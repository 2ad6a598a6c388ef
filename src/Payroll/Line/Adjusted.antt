-- ===== src/Payroll/Line/Adjusted.antt =====
-- Adjustments on a slip: app/services/payroll_service.py, `_apply_adjustments`.
use avora_be.Prelude.{
  ℕ, ◌+◌, ◌≡◌, ◌∙◌, refl, ap, Bool, true, false, Option, none, some, List, [], ◌∷◌, arith,
  if◌then◌else◌,
}
use avora_be.Prelude.Int.{ℤ, pos, pos_part, neg_part, ◌+ℤ◌, ◌-ℤ◌, eq_of_parts, int_laws}
use avora_be.Payroll.Slip.{CalcConfig, SalaryBreakdown}
use avora_be.Payroll.Slip.AddsUp.{AddsUp}
use avora_be.Payroll.Adjust.{
  PayrollAdjustment, PayrollAdjustmentKind, PayrollAdjustmentTarget, Fields, force, is_override,
  fields_of, apply_overrides, apply_adjustments, sum_of, is_earning, is_deduction, or_net,
}

-- Nothing changes without adjustments if the slip adds up.
pub apply_adjustments-none :
    (cfg : CalcConfig) (s : SalaryBreakdown) → AddsUp cfg s → apply_adjustments s [] ≡ (s, 0, 0)
unfolding apply_adjustments
apply_adjustments-none cfg s adds =
    let net : s.gross_minor -ℤ s.total_deduction_minor +ℤ pos 0 -ℤ pos 0 ≡ s.net_minor =
      eq_of_parts _ _ (omega (int_laws, ap pos_part adds.net, ap neg_part adds.net)) in
    ground (arith, net)

-- What the kind and the target of an adjustment say that it sets.
abbrev Aim : Type 0
Aim = PayrollAdjustmentKind → Option PayrollAdjustmentTarget → Bool

abbrev sets_basic : Aim
sets_basic PayrollAdjustmentKind.override (some PayrollAdjustmentTarget.basic) = true
sets_basic _ _ = false

abbrev sets_hra : Aim
sets_hra PayrollAdjustmentKind.override (some PayrollAdjustmentTarget.hra) = true
sets_hra _ _ = false

abbrev sets_special : Aim
sets_special PayrollAdjustmentKind.override (some PayrollAdjustmentTarget.special_allowance) = true
sets_special _ _ = false

abbrev sets_pf : Aim
sets_pf PayrollAdjustmentKind.override (some PayrollAdjustmentTarget.employee_pf) = true
sets_pf _ _ = false

abbrev sets_professional_tax : Aim
sets_professional_tax PayrollAdjustmentKind.override
      (some PayrollAdjustmentTarget.professional_tax) =
    true
sets_professional_tax _ _ = false

abbrev sets_income_tax : Aim
sets_income_tax PayrollAdjustmentKind.override (some PayrollAdjustmentTarget.income_tax) = true
sets_income_tax _ _ = false

abbrev sets_net : Aim
sets_net PayrollAdjustmentKind.override (some PayrollAdjustmentTarget.net_pay) = true
sets_net _ _ = false

-- The amount of the last adjustment that sets a figure, and the figure itself without one.
abbrev last_set : Aim → List PayrollAdjustment → Option ℕ
last_set p [] = none
last_set p (a ∷ rest) = elim (last_set p rest) [
  | some v ↦ some v
  | none ↦ if p a.kind a.target then some a.amount_minor else none
]

abbrev or_was : {A : Type 0} → (ℕ → A) → Option ℕ → A → A
or_was i none old = old
or_was i (some v) old = i v

abbrev pub earned : List PayrollAdjustment → ℕ
earned [] = 0
earned (a ∷ rest) = elim a.kind [
  | PayrollAdjustmentKind.earning ↦ a.amount_minor + earned rest
  | PayrollAdjustmentKind.deduction ↦ earned rest
  | PayrollAdjustmentKind.override ↦ earned rest
]

abbrev pub deducted : List PayrollAdjustment → ℕ
deducted [] = 0
deducted (a ∷ rest) = elim a.kind [
  | PayrollAdjustmentKind.earning ↦ deducted rest
  | PayrollAdjustmentKind.deduction ↦ a.amount_minor + deducted rest
  | PayrollAdjustmentKind.override ↦ deducted rest
]

-- What a slip is after its adjustments.
pub record Adjusted (s : SalaryBreakdown) (adjustments : List PayrollAdjustment)
    (r : SalaryBreakdown) : Type 0 where
  pub ctc : r.ctc_minor ≡ s.ctc_minor
  pub employer_pf : r.employer_pf_minor ≡ s.employer_pf_minor
  pub basic : r.basic_minor ≡ or_was pos (last_set sets_basic adjustments) s.basic_minor
  pub hra : r.hra_minor ≡ or_was pos (last_set sets_hra adjustments) s.hra_minor
  pub special :
      r.special_allowance_minor
      ≡ or_was pos (last_set sets_special adjustments) s.special_allowance_minor
  pub pf : r.employee_pf_minor ≡ or_was pos (last_set sets_pf adjustments) s.employee_pf_minor
  pub professional_tax :
      r.professional_tax_minor
      ≡ or_was pos (last_set sets_professional_tax adjustments) s.professional_tax_minor
  pub income_tax :
      r.income_tax_minor ≡ or_was pos (last_set sets_income_tax adjustments) s.income_tax_minor
  pub gross : r.gross_minor ≡ r.basic_minor +ℤ r.hra_minor +ℤ r.special_allowance_minor
  pub total_deduction :
      r.total_deduction_minor
      ≡ r.employee_pf_minor +ℤ r.professional_tax_minor +ℤ r.income_tax_minor
  pub net :
      r.net_minor +ℤ pos (deducted adjustments)
      ≡ or_was pos (last_set sets_net adjustments) (r.gross_minor -ℤ r.total_deduction_minor)
        +ℤ pos (earned adjustments)

-- A field of the loop that one kind of override sets.
module _ {A : Type 0} (g : Fields → A) (i : ℕ → A) (p : Aim)
    (one : (k : PayrollAdjustmentKind) (t : Option PayrollAdjustmentTarget) (v : ℕ) (f : Fields)
      → g (if is_override k then force t (pos v) f else f) ≡ (if p k t then i v else g f)) where
  last_of_all :
      (adjustments : List PayrollAdjustment) (f : Fields)
      → g (apply_overrides adjustments f) ≡ or_was i (last_set p adjustments) (g f)
  last_of_all [] f = refl
  last_of_all (a ∷ rest) f =
      let next = if is_override a.kind then force a.target (pos a.amount_minor) f else f in
      last_of_all rest next
      ∙ ap (or_was i (last_set p rest)) (one a.kind a.target a.amount_minor f)
      ∙ over (last_set p rest) (p a.kind a.target) a.amount_minor (g f)
    where
      over :
          (o : Option ℕ) (b : Bool) (v : ℕ) (old : A)
          → or_was i o (if b then i v else old)
            ≡ or_was i (elim o [ some w ↦ some w | none ↦ if b then some v else none ]) old
      over none false v old = refl
      over none true v old = refl
      over (some w) b v old = refl

sum_of-earned :
    (adjustments : List PayrollAdjustment) → sum_of is_earning adjustments ≡ earned adjustments
sum_of-earned [] = refl
sum_of-earned (a ∷ rest) = ground (arith, sum_of-earned rest)

sum_of-deducted :
    (adjustments : List PayrollAdjustment) → sum_of is_deduction adjustments ≡ deducted adjustments
sum_of-deducted [] = refl
sum_of-deducted (a ∷ rest) = ground (arith, sum_of-deducted rest)

balance :
    (o : Option ℕ) (x : ℤ) (e d : ℕ)
    → or_net (or_was (λ v. some (pos v)) o none) x +ℤ pos e -ℤ pos d +ℤ pos d
      ≡ or_was pos o x +ℤ pos e
balance none x e d = eq_of_parts _ _ (omega int_laws)
balance (some v) x e d = eq_of_parts _ _ (omega int_laws)

-- The slip after adjustments. Each of the three earnings and the three deductions is the amount of
-- the last override of it, or the prorated figure without one; the gross is the sum of those
-- earnings and the total deduction that of those deductions; and the net with the manual deductions
-- is the last override of the net, or else the gross less the total deduction, with the manual
-- earnings. The two manual sums are returned, and CTC and employer's PF stay as prorated.
pub apply_adjustments_lem :
    (s : SalaryBreakdown) (adjustments : List PayrollAdjustment)
    → let (r, earnings, deductions) = apply_adjustments s adjustments in
      Adjusted s adjustments r
      × (earnings ≡ earned adjustments)
      × (deductions ≡ deducted adjustments)
unfolding apply_adjustments force
apply_adjustments_lem s adjustments =
    let f = fields_of s in
    let f' = apply_overrides adjustments f in
    let more = sum_of-earned adjustments in
    let less = sum_of-deducted adjustments in
    let set =
      last_of_all (λ g. g.net_override) (λ v. some (pos v)) sets_net (λ k t v h. ground arith)
        adjustments f in
    (
      record {
        ctc = refl;
        employer_pf = refl;
        basic = last_of_all (λ g. g.basic) pos sets_basic (λ k t v h. ground arith) adjustments f;
        hra = last_of_all (λ g. g.hra) pos sets_hra (λ k t v h. ground arith) adjustments f;
        special =
            last_of_all (λ g. g.special) pos sets_special (λ k t v h. ground arith) adjustments f;
        pf = last_of_all (λ g. g.employee_pf) pos sets_pf (λ k t v h. ground arith) adjustments f;
        professional_tax =
            last_of_all (λ g. g.professional_tax) pos sets_professional_tax
              (λ k t v h. ground arith) adjustments f;
        income_tax =
            last_of_all (λ g. g.income_tax) pos sets_income_tax (λ k t v h. ground arith)
              adjustments f;
        gross = refl;
        total_deduction = refl;
        net =
            rw (set, more, less)
              (balance (last_set sets_net adjustments)
                (f'.basic
                  +ℤ f'.hra
                  +ℤ f'.special
                  -ℤ (f'.employee_pf +ℤ f'.professional_tax +ℤ f'.income_tax))
                (earned adjustments) (deducted adjustments));
      },
      more,
      less,
    )
