-- ===== src/Resignation/Tests.antt =====
-- A resignation that HR accepts, and one that is taken back.
use avora_be.Prelude.{ℕ, ◌≡◌, ◌≢◌, refl, true, false, ◌&&◌, none, some, [], ◌∷◌, arith}
use avora_be.Prelude.Dict.{lookup}
use avora_be.Prelude.Service.{Result, succeeds}
use avora_be.Calendar.{date}
use avora_be.Auth.{Role}
use avora_be.Staff.Sample.{staff, user, row_of, state_of}
use avora_be.Resignation.{
  Db, Resignation, ResignationStatus, ResignationCreate, submit, decide, withdraw, find_row,
  in_scope, is_submitted,
}
use avora_be.Resignation.History.{Step, Run}
use avora_be.Resignation.Final.{outcome_stands, one_open_each, reviewed_by_others}

abbrev start : Db
start = record {
  rows = [];
  employees =
      (1, staff Role.executive (some 2))
      ∷ (2, staff Role.manager none)
      ∷ (3, staff Role.hr none)
      ∷ [];
  audit = [];
  messages = [];
}

abbrev notice : ResignationCreate
notice = record { reason = some "Moving away"; last_working_day = date 2026 12 31 }

abbrev nothing : Resignation
nothing = record {
  employee_id = 0;
  reason = none;
  last_working_day = date 2026 1 1;
  status = ResignationStatus.rejected;
  reviewer_id = none;
  decided_at = none;
  decision_note = none;
}

abbrev first : Result (Resignation × Db)
first = submit (user 1 Role.executive) notice 7 start

abbrev accepted_ : Result (Resignation × Db)
accepted_ =
    decide (user 3 Role.hr) 7 (record { accept = true; note = none }) 100 (state_of start first)

abbrev again : Result (Resignation × Db)
again = submit (user 1 Role.executive) notice 8 (state_of start accepted_)

desk : Unit {0}
unfolding submit decide withdraw find_row in_scope
desk = tt

-- The manager sees the row and may not decide it.
manager_refused :
    succeeds (
      decide
        (user 2 Role.manager)
        7
        (record { accept = true; note = none })
        100
        (state_of start first))
    ≡ false
unfolding desk
manager_refused = refl

second_refused : succeeds (submit (user 1 Role.executive) notice 8 (state_of start first)) ≡ false
unfolding desk
second_refused = refl

decision : Run start (state_of start accepted_)
unfolding desk
decision =
    Run.next
      (Run.next Run.done
        (Step.submits (user 1 Role.executive) notice 7 {r = row_of nothing first} refl refl))
      (Step.decides (user 3 Role.hr) 7 (record { accept = true; note = none }) 100
        {r = row_of nothing accepted_} refl)

more : Run (state_of start accepted_) (state_of start again)
unfolding desk
more =
    Run.next Run.done
      (Step.submits (user 1 Role.executive) notice 8 {r = row_of nothing again} refl refl)

history : Run start (state_of start again)
unfolding desk
history =
    Run.next decision
      (Step.submits (user 1 Role.executive) notice 8 {r = row_of nothing again} refl refl)

outcome_stands_example : lookup 7 (state_of start again).rows ≡ some (row_of nothing accepted_)
unfolding desk
outcome_stands_example = outcome_stands 7 (row_of nothing accepted_) refl refl more

one_open_each_example :
    is_submitted (row_of nothing accepted_).status && is_submitted (row_of nothing again).status
    ≡ false
unfolding desk
one_open_each_example =
    one_open_each 7 8 (row_of nothing accepted_) (row_of nothing again) refl history refl refl refl
      (omega arith)

abbrev reviewer : ℕ
reviewer = 3

reviewed_by_others_example : reviewer ≢ (row_of nothing accepted_).employee_id
unfolding desk
reviewed_by_others_example =
    reviewed_by_others 7 3 (row_of nothing accepted_) refl history refl refl
