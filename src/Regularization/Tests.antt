-- ===== src/Regularization/Tests.antt =====
-- A fix that is requested and granted, and a second one that finds the month's credit spent.
use avora_be.Prelude.{◌≤◌, ◌≡◌, ◌≢◌, refl, true, false, ◌&&◌, ltb, none, some, [], ◌∷◌, arith}
use avora_be.Prelude.Service.{Result, succeeds}
use avora_be.Auth.{Role}
use avora_be.Staff.Scope.{can_read, in_scope, reporting_tree_ids, tree_rounds, new_reports}
use avora_be.Staff.Sample.{staff, user, row_of, state_of}
use avora_be.Regularization.{
  Db, Regularization, RegularizationReview, RegularizationStatus, request, review, may_decide,
  spend_credit, spec, default_policy, count_approved_in_month, month_of, decidable,
}
use avora_be.Regularization.Writes.{granted}
use avora_be.Regularization.History.{Step, Run}
use avora_be.Regularization.Credits.{approved_at_most, one_active_per_day}
use avora_be.Regularization.Review.{decidable-review}

abbrev start : Db
start = record {
  regs = [];
  employees = (1, staff Role.executive (some 2)) ∷ (2, staff Role.manager none) ∷ [];
  policy = some (record default_policy { monthly_regularizations = 1 });
  audit = [];
  messages = [];
}

abbrev nothing : Regularization
nothing = record {
  employee_id = 0;
  day = 0;
  reason = none;
  status = RegularizationStatus.rejected;
  reviewed_by_id = none;
  review_note = none;
}

abbrev grant : RegularizationReview
grant = record { approve = true; review_note = none }

abbrev first : Result (Regularization × Db)
first = request (user 1 Role.executive) (record { day = 20260903; reason = none }) 7 start

abbrev second : Result (Regularization × Db)
second =
    request (user 1 Role.executive) (record { day = 20260904; reason = none }) 8
      (state_of start first)

abbrev fixed : Result (Regularization × Db)
fixed = review (user 2 Role.manager) 7 grant (state_of start second)

history : Run 1 start (state_of start fixed)
unfolding request review may_decide spend_credit spec can_read in_scope reporting_tree_ids
    tree_rounds new_reports
history =
    Run.next
      (Run.next
        (Run.next Run.done (
          Step.requests (user 1 Role.executive) (record { day = 20260903; reason = none }) 7
            {r = row_of nothing first} refl refl))
        (Step.requests (user 1 Role.executive) (record { day = 20260904; reason = none }) 8
          {r = row_of nothing second} refl refl))
      (Step.reviews (user 2 Role.manager) 7 grant {r = row_of nothing fixed} refl)

no_credit_left : succeeds (review (user 2 Role.manager) 8 grant (state_of start fixed)) ≡ false
unfolding request review may_decide spend_credit spec can_read in_scope reporting_tree_ids
    tree_rounds new_reports
no_credit_left = refl

approved_at_most_example : count_approved_in_month 1 202609 (state_of start fixed).regs ≤ 1
approved_at_most_example = approved_at_most 1 1 202609 refl (omega arith) history

one_active_per_day_example : (row_of nothing fixed).day ≢ (row_of nothing second).day
unfolding request review may_decide spend_credit spec can_read in_scope reporting_tree_ids
    tree_rounds new_reports
one_active_per_day_example =
    one_active_per_day 7 8 (row_of nothing fixed) (row_of nothing second) refl history refl refl
      refl refl refl (omega arith)

decidable-review_example :
    (decidable (user 2 Role.manager) (state_of start first) (row_of nothing first)
      ≡ succeeds (
          review
            (user 2 Role.manager)
            7
            (record { approve = false; review_note = none })
            (state_of start first)))
    × ((decidable (user 2 Role.manager) (state_of start first) (row_of nothing first)
          && ltb
              (count_approved_in_month
                (row_of nothing first).employee_id
                (month_of (row_of nothing first).day)
                (state_of start first).regs)
              (granted (state_of start first)))
        ≡ succeeds (review (user 2 Role.manager) 7 grant (state_of start first)))
unfolding request can_read in_scope reporting_tree_ids tree_rounds new_reports
decidable-review_example =
    decidable-review (user 2 Role.manager) 7 (state_of start first) (row_of nothing first) refl refl
      none
