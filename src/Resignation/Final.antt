-- ===== src/Resignation/Final.antt =====
-- What the histories of app/services/resignation_service.py keep.
use avora_be.Prelude.{
  ℕ, ◌≡◌, ◌≢◌, ◌⊎◌, ◌∙◌, inl, inr, true, false, none, some, [], ◌&&◌, ◌==◌, arith, ap, sym, subst,
  refl, Bool-cases,
}
use avora_be.Prelude.Dict.{
  Dict, lookup, insert, any_rows-lookup, lookup-insert_cases, lookup-insert_other,
}
use avora_be.Auth.{CurrentUser}
use avora_be.Resignation.{
  Db, Resignation, ResignationDecision, is_submitted, new_row, decided, taken_back, has_active,
}
use avora_be.Resignation.History.{Step, Run, submit_writes, decide_writes, withdraw_writes}

-- What every step does to the table: nothing, or one row written that was new or submitted.
data Written (db : Db) : Db → Type 0 where
  same_rows : {db' : Db} → db'.rows ≡ db.rows → Written db db'
  added :
      (k : ℕ) (row : Resignation) {db' : Db}
      → lookup k db.rows ≡ none
      → is_submitted row.status ≡ true
      → row.reviewer_id ≡ none
      → has_active row.employee_id db.rows ≡ false
      → db'.rows ≡ insert k row db.rows
      → Written db db'
  moved :
      (k : ℕ) (old row : Resignation) {db' : Db}
      → lookup k db.rows ≡ some old
      → is_submitted old.status ≡ true
      → is_submitted row.status ≡ false
      → row.employee_id ≡ old.employee_id
      → (row.reviewer_id ≡ old.reviewer_id)
        ⊎ ((a : ℕ) × (row.reviewer_id ≡ some a) × (a ≢ old.employee_id))
      → db'.rows ≡ insert k row db.rows
      → Written db db'

decided_closed :
    (caller : CurrentUser) (p : ResignationDecision) (now : ℕ) (row : Resignation)
    → is_submitted (decided caller p now row).status ≡ false
decided_closed caller p now row = ground arith

Step-Written : {db db' : Db} → Step db db' → Written db db'
Step-Written {db} (Step.submits caller p k fresh h) =
    let (free, wrote) = submit_writes caller p k db h in
    added k (new_row caller.employee_id p) fresh refl refl free wrote
Step-Written {db} (Step.decides caller k p now h) =
    let (row, at, _, _, other, open_, wrote) = decide_writes caller k p now db h in
    moved k row (decided caller p now row) at open_ (decided_closed caller p now row) refl
      (inr (caller.employee_id, refl, other)) wrote
Step-Written {db} (Step.withdraws caller k h) =
    let (row, at, own, open_, wrote) = withdraw_writes caller k db h in
    moved k row (taken_back row) at open_ refl refl (inl refl) wrote
Step-Written (Step.staffs es) = same_rows refl

-- A row that is no longer submitted stays as it is.
Written-keeps :
    (j : ℕ) (row : Resignation) {db db' : Db}
    → Written db db'
    → is_submitted row.status ≡ false
    → lookup j db.rows ≡ some row
    → lookup j db'.rows ≡ some row
Written-keeps j row (same_rows same) closed at = ap (lookup j) same ∙ at
Written-keeps j row {db} (added k new fresh _ _ _ wrote) closed at =
    ap (lookup j) wrote
    ∙ lookup-insert_other new db.rows (λ e. ground (arith, at, fresh, ap (λ x. lookup x db.rows) e))
    ∙ at
Written-keeps j row {db} (moved k old new there open_ _ _ _ wrote) closed at =
    ap (lookup j) wrote
    ∙ lookup-insert_other new db.rows
        (λ e. ground (arith, at, there, closed, open_, ap (λ x. lookup x db.rows) e))
    ∙ at

-- An outcome is final: a resignation that was accepted, rejected or withdrawn is the same row after
-- whatever is submitted, decided and withdrawn later.
pub outcome_stands :
    (k : ℕ) (row : Resignation) {db db' : Db}
    → lookup k db.rows ≡ some row
    → is_submitted row.status ≡ false
    → Run db db'
    → lookup k db'.rows ≡ some row
outcome_stands k row at closed Run.done = at
outcome_stands k row at closed (Run.next run step) =
    Written-keeps k row (Step-Written step) closed (outcome_stands k row at closed run)

-- One submitted resignation of an employee.
abbrev OneOpen : Dict Resignation → Type 0
OneOpen rows =
    (j k : ℕ) (r s : Resignation)
    → lookup j rows ≡ some r
    → lookup k rows ≡ some s
    → is_submitted r.status ≡ true
    → is_submitted s.status ≡ true
    → r.employee_id ≡ s.employee_id
    → j ≡ k

-- A row that meets no submitted one of its employee may be written.
insert-OneOpen :
    (k : ℕ) (row : Resignation) (rows : Dict Resignation)
    → ((j : ℕ) (s : Resignation)
        → lookup j rows ≡ some s
        → is_submitted s.status ≡ true
        → is_submitted row.status ≡ true
        → s.employee_id ≢ row.employee_id)
    → OneOpen rows
    → OneOpen (insert k row rows)
insert-OneOpen k row rows alone one i j r s at at' ro so who =
    elim (lookup-insert_cases i k row rows at) [
      | inl (same, new) ↦ elim (lookup-insert_cases j k row rows at') [
        | inl (same', _) ↦ same ∙ sym same'
        | inr (other, old) ↦
            absurd (alone j s old so (ground (arith, new, ro)) (ground (arith, new, who)))
      ]
      | inr (other, old) ↦ elim (lookup-insert_cases j k row rows at') [
        | inl (same', new) ↦
            absurd (alone i r old ro (ground (arith, new, so)) (ground (arith, new, who)))
        | inr (other', old') ↦ one i j r s old old' ro so who
      ]
    ]

Written-OneOpen : {db db' : Db} → Written db db' → OneOpen db.rows → OneOpen db'.rows
Written-OneOpen (same_rows same) one = subst OneOpen (sym same) one
Written-OneOpen {db} (added k row fresh _ _ free wrote) one = subst OneOpen (sym wrote) (
    insert-OneOpen k row db.rows
      (λ j s at so _ who.
        let taken =
          any_rows-lookup (λ _ r. r.employee_id == row.employee_id && is_submitted r.status) j
            db.rows free at in
        absurd (ground (arith, taken, so, who)))
      one)
Written-OneOpen {db} (moved k old row _ _ closed _ _ wrote) one =
    subst OneOpen (sym wrote)
      (insert-OneOpen k row db.rows (λ j s at so ro _. absurd (ground (arith, ro, closed))) one)

-- Whatever was submitted, decided and withdrawn since there were no resignations: two of one
-- employee under different identifiers are not both waiting for a decision.
pub one_open_each :
    (j k : ℕ) (r s : Resignation) {db db' : Db}
    → db.rows ≡ []
    → Run db db'
    → lookup j db'.rows ≡ some r
    → lookup k db'.rows ≡ some s
    → r.employee_id ≡ s.employee_id
    → j ≢ k
    → is_submitted r.status && is_submitted s.status ≡ false
one_open_each j k r s none_yet run at at' who apart = elim (Bool-cases (is_submitted r.status)) [
  | inr closed ↦ ground (arith, closed)
  | inl ro ↦ elim (Bool-cases (is_submitted s.status)) [
    | inr closed ↦ ground (arith, closed)
    | inl so ↦ absurd (apart (all run none_yet j k r s at at' ro so who))
  ]
]
  where
    all : {db db' : Db} → Run db db' → db.rows ≡ [] → OneOpen db'.rows
    all Run.done none_yet = λ j k r s at. absurd (ground (arith, none_yet, at))
    all (Run.next run step) none_yet = Written-OneOpen (Step-Written step) (all run none_yet)

-- A reviewer is somebody else.
abbrev Others : Dict Resignation → Type 0
Others rows =
    (k : ℕ) (r : Resignation) (a : ℕ)
    → lookup k rows ≡ some r
    → r.reviewer_id ≡ some a
    → a ≢ r.employee_id

insert-Others :
    (k : ℕ) (row : Resignation) (rows : Dict Resignation)
    → ((a : ℕ) → row.reviewer_id ≡ some a → a ≢ row.employee_id)
    → Others rows
    → Others (insert k row rows)
insert-Others k row rows new old j r a at by = elim (lookup-insert_cases j k row rows at) [
  | inl (_, is) ↦
      λ own. new a (ap (λ x. x.reviewer_id) is ∙ by) (own ∙ sym (ap (λ x. x.employee_id) is))
  | inr (_, there) ↦ old j r a there by
]

Written-Others : {db db' : Db} → Written db db' → Others db.rows → Others db'.rows
Written-Others (same_rows same) others = subst Others (sym same) others
Written-Others {db} (added k row _ _ nobody _ wrote) others =
    subst Others (sym wrote)
      (insert-Others k row db.rows (λ a by _. absurd (ground (arith, nobody, by))) others)
Written-Others {db} (moved k old row at _ _ who (inl same) wrote) others =
    subst Others (sym wrote) (
      insert-Others k row db.rows (λ a by own. others k old a at (sym same ∙ by) (own ∙ who))
        others)
Written-Others {db} (moved k old row at _ _ who (inr (b, is, other)) wrote) others =
    subst Others (sym wrote)
      (insert-Others k row db.rows (λ a by own. other (ground (arith, is, by, own, who))) others)

-- Whatever was submitted, decided and withdrawn since there were no resignations: the reviewer on
-- file of a resignation is not the employee whose it is.
pub reviewed_by_others :
    (k a : ℕ) (r : Resignation) {db db' : Db}
    → db.rows ≡ []
    → Run db db'
    → lookup k db'.rows ≡ some r
    → r.reviewer_id ≡ some a
    → a ≢ r.employee_id
reviewed_by_others k a r none_yet run at by = all run none_yet k r a at by
  where
    all : {db db' : Db} → Run db db' → db.rows ≡ [] → Others db'.rows
    all Run.done none_yet = λ j s b at. absurd (ground (arith, none_yet, at))
    all (Run.next run step) none_yet = Written-Others (Step-Written step) (all run none_yet)
