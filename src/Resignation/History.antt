-- ===== src/Resignation/History.antt =====
-- What a successful call of app/services/resignation_service.py did, and the histories of such
-- calls with changes of the staff, one call after the other.
use avora_be.Prelude.{ℕ, ◌≡◌, ◌≢◌, ◌∙◌, true, false, none, some, not, ◌||◌, ◌==◌, arith, ap, sym}
use avora_be.Prelude.Dict.{Dict, lookup, insert}
use avora_be.Prelude.Service.{
  AppError, ok, raise_if, or_raise, bind_ok, raise_if_ok, or_raise_ok, ok_inj,
}
use avora_be.Auth.{CurrentUser}
use avora_be.Staff.{Employee}
use avora_be.Resignation.{
  Db, Resignation, ResignationCreate, ResignationDecision, submit, decide, withdraw, find_row,
  in_scope, has_active, can_review, is_submitted, new_row, decided, taken_back,
}

pub find_row_sees :
    (caller : CurrentUser) (k : ℕ) (db : Db) {row : Resignation} {db' : Db}
    → find_row caller k db ≡ ok (row, db')
    → (lookup k db.rows ≡ some row) × (in_scope caller db.employees row ≡ true) × (db ≡ db')
unfolding find_row
find_row_sees caller k db {row} {db'} h =
    let (found, db1, f, h1) =
      bind_ok (or_raise (lookup k db.rows) AppError.not_found_error) _ db h in
    let (at, same) = or_raise_ok (lookup k db.rows) AppError.not_found_error db f in
    let seen = in_scope caller db1.employees found in
    let (_, db2, g, h2) = bind_ok (raise_if (not seen) AppError.not_found_error) _ db1 h1 in
    let (sees, same1) = raise_if_ok (not seen) AppError.not_found_error db1 g in
    let found_is : found ≡ row = cc in
    let there : db2 ≡ db' = cc in
    (
      at ∙ ap some found_is,
      ap (λ d. in_scope caller d.employees row) same
          ∙ ap (in_scope caller db1.employees) (sym found_is)
          ∙ ground (arith, sees),
      same ∙ same1 ∙ there,
    )

pub submit_writes :
    (caller : CurrentUser) (p : ResignationCreate) (k : ℕ) (db : Db) {row : Resignation} {db' : Db}
    → submit caller p k db ≡ ok (row, db')
    → (has_active caller.employee_id db.rows ≡ false)
      × (db'.rows ≡ insert k (new_row caller.employee_id p) db.rows)
unfolding submit
submit_writes caller p k db h = (ground arith, ground arith)

pub decide_writes :
    (caller : CurrentUser) (k : ℕ) (p : ResignationDecision) (now : ℕ) (db : Db) {r : Resignation}
    {db' : Db}
    → decide caller k p now db ≡ ok (r, db')
    → (row : Resignation) × (lookup k db.rows ≡ some row)
      × (in_scope caller db.employees row ≡ true)
      × (can_review caller ≡ true)
      × (caller.employee_id ≢ row.employee_id)
      × (is_submitted row.status ≡ true)
      × (db'.rows ≡ insert k (decided caller p now row) db.rows)
unfolding decide
decide_writes caller k p now db h =
    let (row, db1, f, h1) = bind_ok (find_row caller k) _ db h in
    let (at, seen, same) = find_row_sees caller k db f in
    let own = not (can_review caller) || caller.employee_id == row.employee_id in
    let (_, db2, g, h2) = bind_ok (raise_if own AppError.authorization_error) _ db1 h1 in
    let (others, same1) = raise_if_ok own AppError.authorization_error db1 g in
    let (_, db3, l, h3) =
      bind_ok (raise_if (not (is_submitted row.status)) AppError.conflict_error) _ db2 h2 in
    let (open_, same2) =
      raise_if_ok (not (is_submitted row.status)) AppError.conflict_error db2 l in
    let whole = same ∙ same1 ∙ same2 in
    (
      row,
      at,
      seen,
      ground (arith, others),
      ground (arith, others),
      ground (arith, open_),
      ap (λ d. d.rows) (sym (ok_inj h3).1)
          ∙ ap (λ d. insert k (decided caller p now row) d.rows) (sym whole),
    )

pub withdraw_writes :
    (caller : CurrentUser) (k : ℕ) (db : Db) {r : Resignation} {db' : Db}
    → withdraw caller k db ≡ ok (r, db')
    → (row : Resignation) × (lookup k db.rows ≡ some row)
      × (caller.employee_id ≡ row.employee_id)
      × (is_submitted row.status ≡ true)
      × (db'.rows ≡ insert k (taken_back row) db.rows)
unfolding withdraw
withdraw_writes caller k db h =
    let (row, db1, f, h1) = bind_ok (find_row caller k) _ db h in
    let (at, seen, same) = find_row_sees caller k db f in
    let own = row.employee_id == caller.employee_id in
    let (_, db2, g, h2) = bind_ok (raise_if (not own) AppError.authorization_error) _ db1 h1 in
    let (theirs, same1) = raise_if_ok (not own) AppError.authorization_error db1 g in
    let (_, db3, l, h3) =
      bind_ok (raise_if (not (is_submitted row.status)) AppError.conflict_error) _ db2 h2 in
    let (open_, same2) =
      raise_if_ok (not (is_submitted row.status)) AppError.conflict_error db2 l in
    let whole = same ∙ same1 ∙ same2 in
    (
      row,
      at,
      ground (arith, theirs),
      ground (arith, open_),
      ap (λ d. d.rows) (sym (ok_inj h3).1) ∙ ap (λ d. insert k (taken_back row) d.rows) (sym whole),
    )

pub data Step (db : Db) : Db → Type 0 where
  submits :
      (caller : CurrentUser) (p : ResignationCreate) (k : ℕ) {r : Resignation} {db' : Db}
      → lookup k db.rows ≡ none
      → submit caller p k db ≡ ok (r, db')
      → Step db db'
  decides :
      (caller : CurrentUser) (k : ℕ) (p : ResignationDecision) (now : ℕ) {r : Resignation}
      {db' : Db}
      → decide caller k p now db ≡ ok (r, db')
      → Step db db'
  withdraws :
      (caller : CurrentUser) (k : ℕ) {r : Resignation} {db' : Db}
      → withdraw caller k db ≡ ok (r, db')
      → Step db db'
  staffs : (es : Dict Employee) → Step db (record db { employees = es })

pub data Run (db : Db) : Db → Type 0 where
  done : Run db db
  next : {db' db'' : Db} → Run db db' → Step db' db'' → Run db db''
