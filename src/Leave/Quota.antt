-- ===== src/Leave/Quota.antt =====
-- The balance check at approval, app/services/leave_service.py, `_enforce_balance`.
use avora_be.Prelude.{ℕ, ◌*◌, ◌≡◌, true, none, some, []}
use avora_be.Prelude.Dict.{lookup}
use avora_be.Calendar.{Date}
use avora_be.Staff.{Employee}
use avora_be.Leave.{Leave, LeaveType}
use avora_be.Leave.Balance.{LeaveAllocation, balance_row, policy_days}
use avora_be.Leave.Desk.{Db, book_of}

-- The quota of a person in a leave year, in hundredths of a day: their own, or the policy's where
-- neither they nor any tenure band have one, or what the balance allocates to their band if it
-- grants the quota.
pub data Granted (db : Db) (who : ℕ) (e : Employee) (today first : Date) (bucket : LeaveType)
    : ℕ → Type 0 where
  own :
      {a : LeaveAllocation} {n : ℕ}
      → lookup who db.allocations ≡ some a
      → a.own_days bucket ≡ some n
      → Granted db who e today first bucket (n * 100)
  by_policy :
      lookup who db.allocations ≡ none
      → db.tiers ≡ []
      → Granted db who e today first bucket (policy_days bucket db.policy * 100)
  by_band :
      (balance_row (book_of db) who e today first bucket).eligible ≡ true
      → Granted db who e today first bucket
          (balance_row (book_of db) who e today first bucket).allocated

-- What HR entered as taken before, in tenths of a day, if for this leave year.
pub data Before (db : Db) (who : ℕ) (first : Date) (bucket : LeaveType) : ℕ → Type 0 where
  nothing : Before db who first bucket 0
  entered :
      {a : LeaveAllocation} {n : ℕ}
      → lookup who db.allocations ≡ some a
      → a.used_before_year_start ≡ some first
      → a.used_before bucket ≡ some n
      → Before db who first bucket (n * 10)
