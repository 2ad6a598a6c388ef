-- ===== src/Payroll/Adjustments/Tests.antt =====
-- An override that takes the place of another.
use avora_be.Prelude.{ℕ, ◌≡◌, ◌≤◌, refl, none, some, [], ◌∷◌}
use avora_be.Prelude.Service.{Result}
use avora_be.Auth.{Role}
use avora_be.Staff.Sample.{staff, user, state_of}
use avora_be.Payroll.Adjust.{PayrollAdjustment, PayrollAdjustmentKind, PayrollAdjustmentTarget}
use avora_be.Payroll.Adjustments.{Db, AdjustmentRow, overrides, without_override, create, new_row}
use avora_be.Payroll.Adjustments.Single.{count, Step, Run, one_override}

abbrev start : Db
start = record {
  rows = [];
  employees = (1, staff Role.executive (some 2)) ∷ (3, staff Role.hr none) ∷ [];
  audit = [];
}

abbrev forced : ℕ → PayrollAdjustment
forced n = record {
  kind = PayrollAdjustmentKind.override;
  target = some PayrollAdjustmentTarget.lop_days;
  amount_minor = n;
}

abbrev first : Result (AdjustmentRow × Db)
first = create (user 3 Role.hr) 1 202605 (forced 100) 7 start

abbrev second : Result (AdjustmentRow × Db)
second = create (user 3 Role.hr) 1 202605 (forced 250) 8 (state_of start first)

replaced : (state_of start second).rows ≡ (8, new_row (user 3 Role.hr) 1 202605 (forced 250)) ∷ []
unfolding create without_override
replaced = refl

history : Run start (state_of start second)
unfolding create without_override
history =
    Run.next
      (Run.next Run.done (
        Step.creates (user 3 Role.hr) 1 202605 (forced 100) 7
          {r = new_row (user 3 Role.hr) 1 202605 (forced 100)} refl))
      (Step.creates (user 3 Role.hr) 1 202605 (forced 250) 8
        {r = new_row (user 3 Role.hr) 1 202605 (forced 250)} refl)

one_override_example : count (overrides 1 202605 8) (state_of start second).rows ≤ 1
one_override_example = one_override 1 202605 8 refl history
