-- ===== src/Probation/Writes.antt =====
-- What a successful call of app/services/probation_service.py did: its guards and its writes.
use avora_be.Prelude.{
  Option, ℕ, ◌≡◌, ◌≢◌, true, some, Bool, arith, ◌||◌, inl, inr, Option-cases, ap, ◌∙◌, sym, subst,
  not,
}
use avora_be.Prelude.Dict.{lookup, insert}
use avora_be.Prelude.Service.{AppError, Result, ok, raise_if, bind_ok, raise_if_ok}
use avora_be.Calendar.{Date}
use avora_be.Auth.{CurrentUser}
use avora_be.Staff.{Employee}
use avora_be.Staff.Scope.{can_read}
use avora_be.Probation.{
  Db, Action, log, Item, Decision, StepOwner, StepStatus, Note, step_or_none, may_manage,
  may_update_step, visible_employee, at_employee, moved, signed_row, acknowledge_step, set_step,
  acknowledge, has_letter_to_sign,
}
use avora_be.Probation.Desk.{
  DecisionCreate, decide, letter_available, end_before_extension, apply_outcome,
  lacks_letter_inputs, sent, new_decision, record_outcome, record_decision,
}

pub visible_employee_sees :
    (caller : CurrentUser) (who : ℕ) (db : Db) {e : Employee} {db' : Db}
    → visible_employee caller who db ≡ ok (e, db')
    → (who ≢ caller.employee_id)
      × (can_read caller db.employees who ≡ true)
      × (lookup who db.employees ≡ some e)
      × (db' ≡ db)
unfolding visible_employee
visible_employee_sees caller who db h = (ground arith, ground arith, ground arith, ground arith)

pub set_step_writes :
    (caller : CurrentUser) (who nr : ℕ) (to : StepStatus) (why : Note) (now : ℕ) (db : Db)
    {r : Item} {db' : Db}
    → set_step caller who nr to why now db ≡ ok (r, db')
    → (who ≢ caller.employee_id)
      × ((owner : StepOwner) × (step_or_none nr ≡ some owner)
          × ((e : Employee) × (may_update_step caller who e owner ≡ true)))
      × (db'.items ≡ at_employee who (insert nr (moved caller to why now)) db.items)
      × (db'.decisions ≡ db.decisions)
unfolding set_step visible_employee
set_step_writes caller who nr to why now db h = elim (Option-cases (lookup who db.employees)) [
  | inl missing ↦ absurd (ground arith)
  | inr (e, found) ↦ elim (Option-cases (step_or_none nr)) [
    | inl unknown ↦ absurd (ground arith)
    | inr (owner, known) ↦
        (ground arith, (owner, known, (e, ground arith)), ground arith, ground arith)
  ]
]

pub acknowledge_writes :
    (caller : CurrentUser) (now : ℕ) (db : Db) {r : Item} {db' : Db}
    → acknowledge caller now db ≡ ok (r, db')
    → (has_letter_to_sign (lookup caller.employee_id db.decisions) ≡ true)
      × (db'.items
          ≡ at_employee caller.employee_id
              (insert acknowledge_step (signed_row caller.employee_id now))
              db.items)
      × (db'.decisions ≡ db.decisions)
unfolding acknowledge
acknowledge_writes caller now db h = (ground arith, ground arith, ground arith)

module _ (caller : CurrentUser) (who : ℕ) (p : DecisionCreate) (uploaded delivered : Bool)
    (today : Date) (now : ℕ) where
  -- The steps of a decision that is recorded.
  pub record Recorded (e : Employee) (db : Db) (d : Decision) (db' : Db) : Type 0 where
    pub original : Option Date
    pub effective : Date
    pub db1 : Db
    pub db2 : Db
    pub first : end_before_extension e (lookup who db.decisions) p db ≡ ok (original, db1)
    pub window : apply_outcome who e (lookup who db.decisions) p today db1 ≡ ok (effective, db2)
    pub decision :
        d ≡ sent p delivered now (new_decision caller p (db.titles who) original effective now)
    pub state :
        db'
        ≡ log caller.employee_id
            (Action.deciding p.outcome)
            who
            (record_decision who d (uploaded || letter_available d) now db2)

  answer_of :
      {a b : Decision} {s t : Db}
      → ◌≡◌ {A = Result (Decision × Db)} (ok (a, s)) (ok (b, t))
      → (a ≡ b) × (s ≡ t)
  answer_of h = (cc, cc)

  record_outcome-Recorded :
      (e : Employee) (db : Db) {d : Decision} {db' : Db}
      → record_outcome caller who e p uploaded delivered today now db ≡ ok (d, db')
      → Recorded e db d db'
  unfolding record_outcome
  record_outcome-Recorded e db {d} {db'} h =
      let (original, db1, f, h1) =
        bind_ok (end_before_extension e (lookup who db.decisions) p) _ db h in
      let (effective, db2, g, h2) =
        bind_ok (apply_outcome who e (lookup who db.decisions) p today) _ db1 h1 in
      let (same, state) = answer_of h2 in
      record {
        original = original;
        effective = effective;
        db1 = db1;
        db2 = db2;
        first = f;
        window = g;
        decision = sym same;
        state =
            sym state
            ∙ ap
                (λ x.
                  log caller.employee_id (Action.deciding p.outcome) who
                    (record_decision who x (uploaded || letter_available x) now db2))
                same;
      }

  pub decide_writes :
      (db : Db) {d : Decision} {db' : Db}
      → decide caller who p uploaded delivered today now db ≡ ok (d, db')
      → (e : Employee) × (lookup who db.employees ≡ some e)
        × (who ≢ caller.employee_id)
        × (may_manage caller ≡ true)
        × Recorded e db d db'
  unfolding decide
  decide_writes db {d} {db'} h =
      let (e, db0, f, h1) = bind_ok (visible_employee caller who) _ db h in
      let (other, seen, found, same) = visible_employee_sees caller who db f in
      let (u, db1, g, h2) =
        bind_ok (raise_if (not (may_manage caller)) AppError.authorization_error) _ db0 h1 in
      let (manages, same1) =
        raise_if_ok (not (may_manage caller)) AppError.authorization_error db0 g in
      let lacking = lacks_letter_inputs (db1.titles who) p uploaded in
      let (v, db2, k, h3) = bind_ok (raise_if lacking AppError.validation_error) _ db1 h2 in
      let (complete, same2) = raise_if_ok lacking AppError.validation_error db1 k in
      let whole : db2 ≡ db = sym (sym same ∙ same1 ∙ same2) in
      (
        e,
        found,
        other,
        ground (arith, manages),
        record_outcome-Recorded e db (
            subst (λ x. record_outcome caller who e p uploaded delivered today now x ≡ ok (d, db'))
              whole h3),
      )
