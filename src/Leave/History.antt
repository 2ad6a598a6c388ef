-- ===== src/Leave/History.antt =====
-- Histories of the leave requests of app/services/leave_service.py: any service call that succeeds,
-- and any change of the other tables that keeps a released month released, in any order.
use Prim.Native.String.{String}
use avora_be.Prelude.{ℕ, ◌≡◌, true, none, ◌==◌, any}
use avora_be.Prelude.Dict.{lookup}
use avora_be.Prelude.Service.{ok}
use avora_be.Calendar.{Date}
use avora_be.Auth.{CurrentUser}
use avora_be.Leave.{Leave}
use avora_be.Leave.Desk.{Db, LeaveCreate, LeaveDecision}
use avora_be.Leave.Handlers.{
  apply, decide, withdraw, cancel_approved, request_withdrawal, decide_withdrawal,
}

pub data Step (db : Db) : Db → Type 0 where
  applies :
      (caller : CurrentUser) (p : LeaveCreate) (today : Date) (k : ℕ) {r : Leave} {db' : Db}
      → lookup k db.leaves ≡ none
      → apply caller p today k db ≡ ok (r, db')
      → Step db db'
  decides :
      (caller : CurrentUser) (k : ℕ) (p : LeaveDecision) (today : Date) (now : ℕ) {r : Leave}
      {db' : Db}
      → decide caller k p today now db ≡ ok (r, db')
      → Step db db'
  withdraws :
      (caller : CurrentUser) (k : ℕ) {r : Leave} {db' : Db}
      → withdraw caller k db ≡ ok (r, db')
      → Step db db'
  cancels :
      (caller : CurrentUser) (k : ℕ) {r : Leave} {db' : Db}
      → cancel_approved caller k db ≡ ok (r, db')
      → Step db db'
  asks :
      (caller : CurrentUser) (k : ℕ) (why : String) (now : ℕ) {r : Leave} {db' : Db}
      → request_withdrawal caller k why now db ≡ ok (r, db')
      → Step db db'
  answers :
      (caller : CurrentUser) (k : ℕ) (p : LeaveDecision) (now : ℕ) {r : Leave} {db' : Db}
      → decide_withdrawal caller k p now db ≡ ok (r, db')
      → Step db db'
  others :
      {db' : Db}
      → db'.leaves ≡ db.leaves
      → ((m : ℕ) → any (◌==◌ m) db.released ≡ true → any (◌==◌ m) db'.released ≡ true)
      → Step db db'

pub data Run (db : Db) : Db → Type 0 where
  done : Run db db
  next : {db' db'' : Db} → Run db db' → Step db' db'' → Run db db''
