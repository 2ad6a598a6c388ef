-- ===== src/Probation/History.antt =====
-- Histories of app/services/probation_service.py: steps that are moved and signed, outcomes that
-- are recorded, what the review forms settle, and changes of the staff, the titles and the leave
-- policy, in any order, one call after the other.
use Prim.Native.String.{String}
use avora_be.Prelude.{
  ℕ, ◌≡◌, ◌≢◌, ◌↔◌, inl, inr, Bool, true, ◌||◌, Option, none, some, [], arith, ◌==◌, ap, subst, sym,
  ◌∙◌, refl, Bool-cases,
}
use avora_be.Prelude.Dict.{Dict, lookup, insert, lookup-insert_cases}
use avora_be.Prelude.Service.{ok}
use avora_be.Calendar.{Date}
use avora_be.Auth.{CurrentUser}
use avora_be.Staff.{Employee}
use avora_be.Probation.{
  Db, Item, Decision, SystemNote, StepOwner, StepStatus, Note, set_step, acknowledge, at_employee,
  mark_done_by_system, step_or_none, may_update_step, moved, signed_row, acknowledge_step, stands,
}
use avora_be.Probation.Items.{lookup-mark_done_by_system, note_for, noted}
use avora_be.Probation.Desk.{DecisionCreate, decide, decision_ticks, letter_available}
use avora_be.Probation.Outcome.{end_before_extension-Reads, apply_outcome-KeepsReview}
use avora_be.Probation.Writes.{set_step_writes, acknowledge_writes, decide_writes}

pub data Step (db : Db) : Db → Type 0 where
  sets :
      (caller : CurrentUser) (who nr : ℕ) (to : StepStatus) (why : Note) (now : ℕ) {r : Item}
      {db' : Db}
      → set_step caller who nr to why now db ≡ ok (r, db')
      → Step db db'
  signs :
      (caller : CurrentUser) (now : ℕ) {r : Item} {db' : Db}
      → acknowledge caller now db ≡ ok (r, db')
      → Step db db'
  decides :
      (caller : CurrentUser) (who : ℕ) (p : DecisionCreate) (uploaded delivered : Bool)
      (today : Date) (now : ℕ) {d : Decision} {db' : Db}
      → decide caller who p uploaded delivered today now db ≡ ok (d, db')
      → Step db db'
  settles :
      (who : ℕ) (notes : Dict SystemNote) (now : ℕ)
      → Step db (record db { items = at_employee who (mark_done_by_system notes now) db.items })
  staffs :
      (es : Dict Employee) (names : ℕ → Option String) (months : Option ℕ)
      → Step db (record db { employees = es; titles = names; default_months = months })

pub data Run (db : Db) : Db → Type 0 where
  done : Run db db
  next : {db' db'' : Db} → Run db db' → Step db' db'' → Run db db''

-- Whoever moved a row of a step of an employee's review: the employee exactly on their own steps.
abbrev RightHand : ℕ → ℕ → Item → Type 0
RightHand who nr row =
    (a : ℕ) → row.actor_id ≡ some a → (a ≡ who) ↔ (step_or_none nr ≡ some StepOwner.employee)

abbrev RightHands : (ℕ → Dict Item) → Type 0
RightHands items =
    (who nr : ℕ) (row : Item) → lookup nr (items who) ≡ some row → RightHand who nr row

-- A change of one employee's rows.
at_employee-RightHands :
    (who : ℕ) (f : Dict Item → Dict Item) (items : ℕ → Dict Item)
    → RightHands items
    → ((nr : ℕ) (row : Item) → lookup nr (f (items who)) ≡ some row → RightHand who nr row)
    → RightHands (at_employee who f items)
at_employee-RightHands who f items old new k nr row h = elim (Bool-cases (k == who)) [
  | inl same ↦
      let e : k ≡ who = ground arith in
      subst (λ w. RightHand w nr row) (sym e)
        (new nr row (subst (λ w. lookup nr (f (items w)) ≡ some row) e (rw same at h)))
  | inr other ↦ old k nr row (rw other at h)
]

-- A row that has no actor is nobody's.
nobody : (who nr : ℕ) (row : Item) → row.actor_id ≡ none → RightHand who nr row
nobody who nr row e a h = absurd (ground (arith, e, h))

settled-RightHands :
    (who : ℕ) (notes : Dict SystemNote) (now : ℕ) (items : ℕ → Dict Item)
    → RightHands items
    → RightHands (at_employee who (mark_done_by_system notes now) items)
settled-RightHands who notes now items old =
    at_employee-RightHands who (mark_done_by_system notes now) items old λ nr row h.
      one nr (note_for nr notes) row (sym (lookup-mark_done_by_system nr notes now (items who)) ∙ h)
  where
    one :
        (nr : ℕ) (o : Option SystemNote) (row : Item)
        → noted o now (lookup nr (items who)) ≡ some row
        → RightHand who nr row
    one nr none row h = old who nr row h
    one nr (some n) row h = elim (Bool-cases (stands (lookup nr (items who)))) [
      | inl keeps ↦ old who nr row (rw keeps at h)
      | inr gone ↦ nobody who nr row (ground (arith, rw gone at h))
    ]

inserted-RightHands :
    (who nr : ℕ) (row : Item) (items : ℕ → Dict Item)
    → RightHands items
    → RightHand who nr row
    → RightHands (at_employee who (insert nr row) items)
inserted-RightHands who nr row items old right =
    at_employee-RightHands who (insert nr row) items old λ k found h.
      elim (lookup-insert_cases k nr row (items who) h) [
        | inl (same, is) ↦
            subst (λ x. RightHand who x found) (sym same) (subst (RightHand who nr) is right)
        | inr (other, there) ↦ old who k found there
      ]

-- Nobody moves a step of the employee's own but the employee.
not_own :
    (caller : CurrentUser) (who : ℕ) (e : Employee) (o : StepOwner)
    → who ≢ caller.employee_id
    → ◌≡◌ {A = Option StepOwner} (some o) (some StepOwner.employee)
    → may_update_step caller who e o ≡ true
    → ⊥
unfolding may_update_step
not_own caller who e StepOwner.employee other same may = ground (arith, other, may)
not_own caller who e StepOwner.hr other same may = absurd (ground (arith, same))
not_own caller who e StepOwner.manager other same may = absurd (ground (arith, same))
not_own caller who e StepOwner.hr_and_manager other same may = absurd (ground (arith, same))

moved-RightHand :
    (caller : CurrentUser) (who nr : ℕ) (to : StepStatus) (why : Note) (now : ℕ) (e : Employee)
    (owner : StepOwner)
    → who ≢ caller.employee_id
    → step_or_none nr ≡ some owner
    → may_update_step caller who e owner ≡ true
    → RightHand who nr (moved caller to why now)
moved-RightHand caller who nr to why now e owner other known may a h =
    let is_caller : a ≡ caller.employee_id = ground (arith, h) in
    (
      λ own. absurd (other (sym own ∙ is_caller)),
      λ own. absurd (not_own caller who e owner other (sym known ∙ own) may),
    )

signed-RightHand : (who now : ℕ) → RightHand who acknowledge_step (signed_row who now)
unfolding step_or_none
signed-RightHand who now a h = (λ _. refl, λ _. ground (arith, h))

decided-RightHands :
    (caller : CurrentUser) (who : ℕ) (p : DecisionCreate) (uploaded delivered : Bool) (today : Date)
    (now : ℕ) (db : Db) {d : Decision} {db' : Db}
    → decide caller who p uploaded delivered today now db ≡ ok (d, db')
    → RightHands db.items
    → RightHands db'.items
decided-RightHands caller who p uploaded delivered today now db {d} h old =
    let (e, found, _, _, r) = decide_writes caller who p uploaded delivered today now db h in
    let reads = end_before_extension-Reads e (lookup who db.decisions) p db r.first in
    let keeps = apply_outcome-KeepsReview who e (lookup who db.decisions) p today r.db1 r.window in
    subst RightHands (ap (λ x. x.items) (sym r.state)) (
      settled-RightHands who (decision_ticks d (uploaded || letter_available d)) now r.db2.items
        (subst RightHands (sym (keeps.items ∙ reads.items)) old))

Run-RightHands : {db db' : Db} → RightHands db.items → Run db db' → RightHands db'.items
Run-RightHands start Run.done = start
Run-RightHands start (Run.next {db'} run (Step.sets caller who nr to why now h)) =
    let (other, (owner, known, (e, may)), wrote, _) =
      set_step_writes caller who nr to why now db' h in
    subst RightHands (sym wrote) (
      inserted-RightHands who nr (moved caller to why now) db'.items (Run-RightHands start run)
        (moved-RightHand caller who nr to why now e owner other known may))
Run-RightHands start (Run.next {db'} run (Step.signs caller now h)) =
    let (_, wrote, _) = acknowledge_writes caller now db' h in
    subst RightHands (sym wrote) (
      inserted-RightHands caller.employee_id acknowledge_step (signed_row caller.employee_id now)
        db'.items (Run-RightHands start run) (signed-RightHand caller.employee_id now))
Run-RightHands start
      (Run.next {db'} run (Step.decides caller who p uploaded delivered today now h)) =
    decided-RightHands caller who p uploaded delivered today now db' h (Run-RightHands start run)
Run-RightHands start (Run.next {db'} run (Step.settles who notes now)) =
    settled-RightHands who notes now db'.items (Run-RightHands start run)
Run-RightHands start (Run.next run (Step.staffs es names months)) = Run-RightHands start run

-- Whatever was moved, signed, decided and settled since the checklists were empty: where a step of
-- an employee's review names who moved it, that is the employee exactly where the step is one of
-- the two that are the employee's own.
pub moved_by_owner :
    (who nr a : ℕ) (row : Item) {db db' : Db}
    → ((k : ℕ) → db.items k ≡ [])
    → Run db db'
    → lookup nr (db'.items who) ≡ some row
    → row.actor_id ≡ some a
    → (a ≡ who) ↔ (step_or_none nr ≡ some StepOwner.employee)
moved_by_owner who nr a row empty run at h =
    Run-RightHands (λ k j found e. absurd (ground (arith, rw (empty k) at e))) run who nr row at a h
