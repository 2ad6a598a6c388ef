-- ===== src/Regularization/History.antt =====
-- Histories of app/services/regularization_service.py: requests and reviews that succeed, a new
-- policy, and changes of the staff records, in any order, one call after the other.
use avora_be.Prelude.{ℕ, ◌≤◌, ◌≡◌, none, some}
use avora_be.Prelude.Dict.{Dict, lookup}
use avora_be.Prelude.Service.{ok}
use avora_be.Auth.{CurrentUser}
use avora_be.Staff.{Employee}
use avora_be.Attendance.{PolicySpec}
use avora_be.Regularization.{
  Db, Regularization, RegularizationCreate, RegularizationReview, request, review,
}

-- The policies of the history grant no more than `limit` credits a month.
pub data Step (limit : ℕ) (db : Db) : Db → Type 0 where
  requests :
      (caller : CurrentUser) (p : RegularizationCreate) (k : ℕ) {r : Regularization} {db' : Db}
      → lookup k db.regs ≡ none
      → request caller p k db ≡ ok (r, db')
      → Step limit db db'
  reviews :
      (caller : CurrentUser) (k : ℕ) (p : RegularizationReview) {r : Regularization} {db' : Db}
      → review caller k p db ≡ ok (r, db')
      → Step limit db db'
  policies :
      (p : PolicySpec)
      → p.monthly_regularizations ≤ limit
      → Step limit db (record db { policy = some p })
  staffs : (es : Dict Employee) → Step limit db (record db { employees = es })

pub data Run (limit : ℕ) (db : Db) : Db → Type 0 where
  done : Run limit db db
  next : {db' db'' : Db} → Run limit db db' → Step limit db' db'' → Run limit db db''
