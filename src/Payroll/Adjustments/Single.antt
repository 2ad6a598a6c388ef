-- ===== src/Payroll/Adjustments/Single.antt =====
-- A field has one override: app/services/payroll_adjustment_service.py.
use avora_be.Prelude.{
  ℕ, suc, ◌+◌, ◌≤◌, ◌≡◌, inl, inr, true, false, Bool, Option, none, some, [], ◌∷◌, ◌++◌, ◌==◌,
  arith, refl, sym, subst, if◌then◌else◌, Bool-cases,
}
use avora_be.Prelude.Dict.{Dict}
use avora_be.Prelude.Service.{ok}
use avora_be.Auth.{CurrentUser}
use avora_be.Staff.{Employee}
use avora_be.Payroll.Adjust.{PayrollAdjustment, is_override}
use avora_be.Payroll.Adjustments.{
  Db, AdjustmentRow, overrides, drop_rows, replacing, without_override, code_of, create, delete,
  new_row,
}

abbrev pub count : (AdjustmentRow → Bool) → Dict AdjustmentRow → ℕ
count p [] = 0
count p ((k, r) ∷ d) = if p r then suc (count p d) else count p d

count-drop_rows :
    (p : AdjustmentRow → Bool) (q : ℕ → AdjustmentRow → Bool) (d : Dict AdjustmentRow)
    → count p (drop_rows q d) ≤ count p d
count-drop_rows p q [] = omega arith
count-drop_rows p q ((k, r) ∷ d) = ground (arith, count-drop_rows p q d)

count_dropped :
    (p : AdjustmentRow → Bool) (d : Dict AdjustmentRow) → count p (drop_rows (λ k. p) d) ≡ 0
count_dropped p [] = refl
count_dropped p ((k, r) ∷ d) = ground (arith, count_dropped p d)

count_added :
    (p : AdjustmentRow → Bool) (k : ℕ) (row : AdjustmentRow) (d : Dict AdjustmentRow)
    → count p (d ++ ((k, row) ∷ [])) ≡ count p d + (if p row then 1 else 0)
count_added p k row [] = ground arith
count_added p k row ((j, r) ∷ d) = ground (arith, count_added p k row d)

same_field :
    (who month code : ℕ) (row : AdjustmentRow) (c : ℕ) (d : Dict AdjustmentRow)
    → code_of row.adjustment.target ≡ some c
    → overrides who month code row ≡ true
    → count
        (overrides who month code)
        (drop_rows (λ k. overrides row.employee_id row.period_month c) d)
      ≡ 0
same_field who month code row c d e h =
    let is_who : row.employee_id ≡ who = ground (arith, h) in
    let is_month : row.period_month ≡ month = ground (arith, h) in
    let is_code : c ≡ code = ground (arith, h, e) in
    rw (is_who, is_month, is_code) (count_dropped (overrides who month code) d)

-- The rows that are left count no more, and none for the field that is written.
count-without_override :
    (who month code : ℕ) (row : AdjustmentRow) (d : Dict AdjustmentRow)
    → (count (overrides who month code) (without_override row d)
        ≤ count (overrides who month code) d)
      × (overrides who month code row ≡ true
          → count (overrides who month code) (without_override row d) ≡ 0)
unfolding without_override
count-without_override who month code row d =
    go (is_override row.adjustment.kind) (code_of row.adjustment.target) refl refl
  where
    go :
        (b : Bool) (o : Option ℕ)
        → is_override row.adjustment.kind ≡ b
        → code_of row.adjustment.target ≡ o
        → (count (overrides who month code) (replacing b o row.employee_id row.period_month d)
            ≤ count (overrides who month code) d)
          × (overrides who month code row ≡ true
              → count (overrides who month code) (replacing b o row.employee_id row.period_month d)
                ≡ 0)
    go true (some c) b e = (
      count-drop_rows (overrides who month code) (λ k. overrides row.employee_id row.period_month c)
          d,
      same_field who month code row c d e,
    )
    go true none b e = (omega arith, λ h. absurd (ground (arith, e, h)))
    go false o b e = (omega arith, λ h. absurd (ground (arith, b, h)))

create_writes :
    (caller : CurrentUser) (who month : ℕ) (a : PayrollAdjustment) (k : ℕ) (db : Db)
    {r : AdjustmentRow} {db' : Db}
    → create caller who month a k db ≡ ok (r, db')
    → db'.rows
      ≡ without_override (new_row caller who month a) db.rows
        ++ ((k, new_row caller who month a) ∷ [])
unfolding create
create_writes caller who month a k db h = ground arith

delete_writes :
    (caller : CurrentUser) (k : ℕ) (db : Db) {u : Unit {0}} {db' : Db}
    → delete caller k db ≡ ok (u, db')
    → db'.rows ≡ drop_rows (λ j r. j == k) db.rows
unfolding delete
delete_writes caller k db h = ground arith

-- Adjustments that are made and deleted, and changes of the staff, one call after the other.
pub data Step (db : Db) : Db → Type 0 where
  creates :
      (caller : CurrentUser) (who month : ℕ) (a : PayrollAdjustment) (k : ℕ) {r : AdjustmentRow}
      {db' : Db}
      → create caller who month a k db ≡ ok (r, db')
      → Step db db'
  deletes :
      (caller : CurrentUser) (k : ℕ) {u : Unit {0}} {db' : Db}
      → delete caller k db ≡ ok (u, db')
      → Step db db'
  staffs : (es : Dict Employee) → Step db (record db { employees = es })

pub data Run (db : Db) : Db → Type 0 where
  done : Run db db
  next : {db' db'' : Db} → Run db db' → Step db' db'' → Run db db''

-- Whatever was adjusted and deleted since there were no adjustments: a field of an employee's month
-- has at most one override.
pub one_override :
    (who month code : ℕ) {db db' : Db}
    → db.rows ≡ []
    → Run db db'
    → count (overrides who month code) db'.rows ≤ 1
one_override who month code none_yet Run.done = ground (arith, none_yet)
one_override who month code none_yet (Run.next {db'} run (Step.creates caller w m a k h)) =
    let row = new_row caller w m a in
    let (fewer, fresh) = count-without_override who month code row db'.rows in
    let added = count_added (overrides who month code) k row (without_override row db'.rows) in
    let before = one_override who month code none_yet run in
    subst (λ d. count (overrides who month code) d ≤ 1) (sym (create_writes caller w m a k db' h))
      (elim (Bool-cases (overrides who month code row)) [
        | inl on ↦ ground (arith, added, fresh on, on)
        | inr off ↦ ground (arith, added, off, fewer, before)
      ])
one_override who month code none_yet (Run.next {db'} run (Step.deletes caller k h)) =
    subst (λ d. count (overrides who month code) d ≤ 1) (sym (delete_writes caller k db' h))
      (omega (
        arith,
        count-drop_rows (overrides who month code) (λ j r. j == k) db'.rows,
        one_override who month code none_yet run,
      ))
one_override who month code none_yet (Run.next run (Step.staffs es)) =
    one_override who month code none_yet run
