-- ===== src/Probation/Tests.antt =====
-- A probation that HR extends and then confirms.
use avora_be.Prelude.{ℕ, ◌≡◌, ◌↔◌, refl, true, false, none, some, [], ◌∷◌, arith}
use avora_be.Prelude.Dict.{Dict, lookup}
use avora_be.Prelude.Service.{Result, succeeds}
use avora_be.Calendar.{
  date, IsValid, to_ordinal, date_ltb, month_length, is_leap, days_before_year, days_before_month,
}
use avora_be.Auth.{Role}
use avora_be.Staff.{Employee}
use avora_be.Staff.Sample.{staff, user, state_of, row_of}
use avora_be.Staff.Scope.{can_read, in_scope}
use avora_be.Tenure.{probation_end, add_months, months_to_reach, anniversaries_reached}
use avora_be.Probation.{
  Db, Item, Decision, ProbationOutcome, StepStatus, StepOwner, SystemNote, Note, set_step,
  acknowledge, visible_employee, may_update_step, step_or_none, mark_done_by_system, signed_row,
}
use avora_be.Probation.Items.{Settles, mark_done_by_system_lem}
use avora_be.Probation.Desk.{
  DecisionCreate, decide, record_outcome, lacks_letter_inputs, end_before_extension, apply_outcome,
  new_window, extend, confirm, probation_months_of, default_probation_months,
}
use avora_be.Probation.Window.{Lengthened, Confirmed, decide_extends, decide_confirms}
use avora_be.Probation.History.{Step, Run, moved_by_owner}

abbrev joiner : Employee
joiner = record (staff Role.executive (some 2)) { hire_date = some (date 2026 1 31) }

abbrev start : Db
start = record {
  items = λ k. [];
  decisions = [];
  employees = (1, joiner) ∷ (2, staff Role.manager none) ∷ (3, staff Role.hr none) ∷ [];
  titles = λ k. some "Engineer";
  default_months = none;
  audit = [];
}

abbrev longer : DecisionCreate
longer = record {
  outcome = ProbationOutcome.extended;
  effective_date = date 2026 9 10;
  job_title = none;
  note = none;
  send_letter = true;
  expectations = "Close tickets in time" ∷ [];
}

abbrev early : DecisionCreate
early = record longer {
  outcome = ProbationOutcome.confirmed;
  effective_date = date 2026 8 3;
  expectations = [];
}

abbrev extended_ : Result (Decision × Db)
extended_ = decide (user 3 Role.hr) 1 longer false true (date 2026 5 1) 100 start

abbrev nothing : Decision
nothing = record {
  outcome = ProbationOutcome.terminated;
  effective_date = date 2026 1 1;
  job_title = none;
  note = none;
  original_end_date = none;
  expectations = none;
  decided_by = 0;
  decided_at = 0;
  letter_sent_at = none;
}

abbrev then_confirmed : Result (Decision × Db)
then_confirmed =
    decide (user 3 Role.hr) 1 early false true (date 2026 8 3) 200 (state_of start extended_)

desk : Unit {0}
unfolding decide record_outcome lacks_letter_inputs end_before_extension apply_outcome new_window
    extend confirm probation_months_of default_probation_months visible_employee can_read in_scope
    mark_done_by_system set_step acknowledge may_update_step step_or_none probation_end add_months
    months_to_reach anniversaries_reached to_ordinal date_ltb month_length is_leap days_before_year
    days_before_month
desk = tt

-- The end that was asked for, 10 September, is moved to the next anniversary.
to_anniversary : (row_of nothing extended_).effective_date ≡ date 2026 9 30
unfolding desk
to_anniversary = refl

first_end_kept : (row_of nothing extended_).original_end_date ≡ some (date 2026 7 31)
unfolding desk
first_end_kept = refl

cut_short :
    lookup 1 (state_of start then_confirmed).employees
    ≡ some (record joiner { probation_months = some 6 })
unfolding desk
cut_short = refl

own_step_refused :
    succeeds (set_step (user 3 Role.hr) 1 3 StepStatus.finished Note.no_note 100 start) ≡ false
unfolding desk
own_step_refused = refl

joined_on : IsValid (date 2026 1 31)
unfolding desk
joined_on = omega arith

asked_for : IsValid (date 2026 9 10)
unfolding desk
asked_for = omega arith

confirmed_on : IsValid (date 2026 8 3)
unfolding desk
confirmed_on = omega arith

extended_on : IsValid (date 2026 5 1)
unfolding desk
extended_on = omega arith

decide_extends_example :
    Lengthened
      (user 3 Role.hr)
      1
      longer
      false
      true
      100
      start
      joiner
      (date 2026 1 31)
      (date 2026 5 1)
      joined_on
      extended_on
      asked_for
      refl
      refl
      (row_of nothing extended_)
      (state_of start extended_)
unfolding desk
decide_extends_example =
    decide_extends (user 3 Role.hr) 1 longer false true 100 start joiner (date 2026 1 31)
      (date 2026 5 1) joined_on extended_on asked_for refl refl refl (omega arith) refl

abbrev on_longer : Employee
on_longer = record joiner { probation_months = some 8 }

on_file : lookup 1 (state_of start extended_).employees ≡ some on_longer
unfolding desk
on_file = refl

decide_confirms_example :
    Confirmed
      (user 3 Role.hr)
      1
      early
      false
      true
      200
      (state_of start extended_)
      on_longer
      (date 2026 1 31)
      (date 2026 8 3)
      joined_on
      confirmed_on
      confirmed_on
      on_file
      refl
      (row_of nothing then_confirmed)
      (state_of start then_confirmed)
unfolding desk
decide_confirms_example =
    decide_confirms (user 3 Role.hr) 1 early false true 200 (state_of start extended_) on_longer
      (date 2026 1 31) (date 2026 8 3) joined_on confirmed_on confirmed_on on_file refl refl
      (omega arith) refl

history : Run start (state_of start extended_)
unfolding desk
history = Run.next Run.done (
    Step.decides (user 3 Role.hr) 1 longer false true (date 2026 5 1) 100
      {d = row_of nothing extended_} refl)

abbrev signed : Result (Item × Db)
signed = acknowledge (user 1 Role.executive) 150 (state_of start extended_)

signed_history : Run start (state_of start signed)
unfolding desk
signed_history =
    Run.next history (Step.signs (user 1 Role.executive) 150 {r = signed_row 1 150} refl)

abbrev tester : ℕ
tester = 1

moved_by_owner_example : (tester ≡ tester) ↔ (step_or_none 14 ≡ some StepOwner.employee)
unfolding desk
moved_by_owner_example =
    moved_by_owner 1 14 1 (signed_row 1 150) (λ k. refl) signed_history refl refl

abbrev two_notes : Dict SystemNote
two_notes = (7, SystemNote.form_done) ∷ (8, SystemNote.letter_emailed) ∷ []

mark_done_by_system_lem_example :
    Settles 300
      (lookup 7 two_notes)
      (some (signed_row 2 90))
      (lookup 7 (mark_done_by_system two_notes 300 ((7, signed_row 2 90) ∷ [])))
mark_done_by_system_lem_example =
    mark_done_by_system_lem 7 two_notes 300 ((7, signed_row 2 90) ∷ []) (refl, (refl, tt))
