-- ===== src/Leave/Released.antt =====
-- Approved leave and released payrolls, app/services/leave_service.py, `_enforce_payroll_open`.
use avora_be.Prelude.{
  ℕ, ◌≡◌, sym, ◌∙◌, ap, subst, true, some, List, [], ◌∷◌, inl, inr, arith, ◌==◌, any, Bool-cases,
}
use avora_be.Prelude.Dict.{lookup, lookup-insert_same, lookup-insert_other}
use avora_be.Leave.{Leave, LeaveType, LeaveStatus}
use avora_be.Calendar.{Date}
use avora_be.Leave.Balance.{months_between}
use avora_be.Leave.Desk.{Db}
use avora_be.Leave.Handlers.{is_frozen}
use avora_be.Leave.Writes.{
  Wrote, apply_writes, withdraw_writes, cancel_approved_writes, request_withdrawal_writes,
  decide_withdrawal_writes, decide_writes,
}
use avora_be.Leave.History.{Step, Run}

-- The leave on file is approved, is a given person's, of a given type and dates, and a month of it
-- is released.
pub record Settled (k who : ℕ) (t : LeaveType) (first last : Date) (db : Db) : Type 0 where
  pub row : Leave
  pub at : lookup k db.leaves ≡ some row
  pub status : row.status ≡ LeaveStatus.approved
  pub owner : row.employee_id ≡ who
  pub kind : row.leave_type ≡ t
  pub start : row.start_date ≡ first
  pub end : row.end_date ≡ last
  pub frozen : any (λ m. any (◌==◌ m) db.released) (months_between first last) ≡ true

module _ (k who : ℕ) (t : LeaveType) (first last : Date) where
  -- A write to another row.
  elsewhere :
      {j : ℕ} {r : Leave} {db db' : Db}
      → Wrote j r db db'
      → (k ≡ j → ⊥)
      → Settled k who t first last db
      → Settled k who t first last db'
  elsewhere {j} {r} {db} w ne held = record {
    row = held.row;
    at = ap (lookup k) w.leaves ∙ lookup-insert_other r db.leaves ne ∙ held.at;
    status = held.status;
    owner = held.owner;
    kind = held.kind;
    start = held.start;
    end = held.end;
    frozen =
        subst (λ l. any (λ m. any (◌==◌ m) l) (months_between first last) ≡ true) (sym w.released)
          held.frozen;
  }

  -- The row read at the leave's own key is the settled one.
  same_row :
      {db : Db} {row : Leave}
      → (held : Settled k who t first last db) → lookup k db.leaves ≡ some row
      → held.row ≡ row
  same_row held e = ground (arith, held.at, e)

  Settled-is_frozen :
      {db : Db} {row : Leave}
      → Settled k who t first last db
      → lookup k db.leaves ≡ some row
      → is_frozen row db ≡ true
  Settled-is_frozen {db} {row} held e =
      let start : row.start_date ≡ first =
        ap (λ l. l.start_date) (sym (same_row held e)) ∙ held.start in
      let end : row.end_date ≡ last = ap (λ l. l.end_date) (sym (same_row held e)) ∙ held.end in
      rw (start, end) held.frozen

  -- A row with the settled row's status, owner, type and dates written in its place.
  replaced :
      {r row : Leave} {db db' : Db}
      → Wrote k r db db'
      → (held : Settled k who t first last db) → held.row ≡ row
      → r.status ≡ row.status
      → r.employee_id ≡ row.employee_id
      → r.leave_type ≡ row.leave_type
      → r.start_date ≡ row.start_date
      → r.end_date ≡ row.end_date
      → Settled k who t first last db'
  replaced {r} {row} {db} w held e s o y a z = record {
    row = r;
    at = ap (lookup k) w.leaves ∙ lookup-insert_same k r db.leaves;
    status = s ∙ ap (λ l. l.status) (sym e) ∙ held.status;
    owner = o ∙ ap (λ l. l.employee_id) (sym e) ∙ held.owner;
    kind = y ∙ ap (λ l. l.leave_type) (sym e) ∙ held.kind;
    start = a ∙ ap (λ l. l.start_date) (sym e) ∙ held.start;
    end = z ∙ ap (λ l. l.end_date) (sym e) ∙ held.end;
    frozen =
        subst (λ l. any (λ m. any (◌==◌ m) l) (months_between first last) ≡ true) (sym w.released)
          held.frozen;
  }

  -- A released month stays released whatever months are asked for.
  any-grows :
      (ms old new : List ℕ)
      → ((m : ℕ) → any (◌==◌ m) old ≡ true → any (◌==◌ m) new ≡ true)
      → any (λ m. any (◌==◌ m) old) ms ≡ true
      → any (λ m. any (◌==◌ m) new) ms ≡ true
  any-grows [] old new keeps h = absurd (ground arith)
  any-grows (m ∷ ms) old new keeps h = ground (arith, keeps m, any-grows ms old new keeps)

  step-Settled :
      {db db' : Db} → Step db db' → Settled k who t first last db → Settled k who t first last db'
  step-Settled {db} (Step.applies caller p today j {r} fresh h) held =
      let (e, found, passed, same, w) = apply_writes caller p today j db h in
      elsewhere w (λ kj. absurd (ground (arith, held.at))) held
  step-Settled {db} (Step.withdraws caller j {r} h) held =
      let (row, at, owner, s, same, w) = withdraw_writes caller j db h in
      elsewhere w (λ kj. absurd (ground (arith, held.at, held.status))) held
  step-Settled {db} (Step.cancels caller j {r} h) held =
      let (row, at, seen, may, still_open, same, w) = cancel_approved_writes caller j db h in
      elsewhere w (λ kj. absurd (ground (arith, Settled-is_frozen {row = row} held))) held
  step-Settled {db} (Step.asks caller j why now {r} h) held =
      let (row, at, may, still_open, same, w) = request_withdrawal_writes caller j why now db h in
      elsewhere w (λ kj. absurd (ground (arith, Settled-is_frozen {row = row} held))) held
  step-Settled {db} {db'} (Step.answers caller j p now {r} h) held =
      let (row, at, seen, may, still_open, same, w) =
        decide_withdrawal_writes caller j p now db h in
      elim (Bool-cases p.approve) [
        | inl granted ↦
            elsewhere w (λ kj. absurd (ground (arith, Settled-is_frozen {row = row} held))) held
        | inr refused ↦ elim (Bool-cases (k == j)) [
          | inr other ↦ elsewhere w (λ kj. absurd (ground arith)) held
          | inl here ↦
              let kj : k ≡ j = ground arith in
              replaced (subst (λ x. Wrote x r db db') (sym kj) w) held
                (same_row held (subst (λ x. lookup x db.leaves ≡ some row) (sym kj) at))
                (ground arith) (ground arith) (ground arith) (ground arith) (ground arith)
        ]
      ]
  step-Settled {db} (Step.decides caller j p today now {r} h) held =
      let (row, at, seen, may, s, passed, same, w) = decide_writes caller j p today now db h in
      elsewhere w (λ kj. absurd (ground (arith, held.at, held.status))) held
  step-Settled {db} {db'} (Step.others same keeps) held = record {
    row = held.row;
    at = ap (lookup k) same ∙ held.at;
    status = held.status;
    owner = held.owner;
    kind = held.kind;
    start = held.start;
    end = held.end;
    frozen = any-grows (months_between first last) db.released db'.released keeps held.frozen;
  }

  -- Once a month of an approved leave has released payslips, the leave stays approved, with the
  -- same owner, type and dates, through every history of service calls and of changes of the other
  -- tables that keep released months released.
  pub Run-Settled :
      {db db' : Db} → Run db db' → Settled k who t first last db → Settled k who t first last db'
  Run-Settled Run.done held = held
  Run-Settled (Run.next run step) held = step-Settled step (Run-Settled run held)
