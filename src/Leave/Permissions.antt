-- ===== src/Leave/Permissions.antt =====
-- The read model `permissions` of app/services/leave_service.py against the handlers.
use Prim.Native.String.{String}
use avora_be.Prelude.{ℕ, ◌≡◌, true, false, not, ◌&&◌, Option, some, arith}
use avora_be.Prelude.Dict.{lookup}
use avora_be.Prelude.Service.{succeeds}
use avora_be.Calendar.{Date}
use avora_be.Auth.{CurrentUser}
use avora_be.Leave.{Leave, in_scope}
use avora_be.Leave.Desk.{Db, LeaveDecision}
use avora_be.Leave.Handlers.{
  permissions, is_frozen, decide, decision_rules, finish_decision, cancel_approved,
  request_withdrawal, decide_withdrawal,
}

abbrev pub refusal : Option String → LeaveDecision
refusal why = record { approve = false; note = why }

module _ (caller : CurrentUser) (k : ℕ) (db : Db) (row : Leave) (at : lookup k db.leaves ≡ some row)
    (seen : in_scope caller db.employees row ≡ true) where
  -- For a leave on file that the caller can see: `can_decide` says whether a rejection, taken now,
  -- goes through.
  pub can_decide-succeeds :
      (why : Option String) (today : Date) (now : ℕ)
      → (permissions caller db row).can_decide
        ≡ succeeds (decide caller k (refusal why) today now db)
  unfolding decide decision_rules finish_decision
  can_decide-succeeds why today now = ground arith

  -- For a leave on file that the caller can see: `can_cancel` says whether a cancellation goes
  -- through, unless the payroll of one of its months is released.
  pub can_cancel-succeeds :
      ((permissions caller db row).can_cancel && not (is_frozen row db))
      ≡ succeeds (cancel_approved caller k db)
  unfolding cancel_approved
  can_cancel-succeeds = ground arith

  -- For a leave on file that the caller can see: `can_request_withdrawal` says whether the request
  -- goes through, unless the payroll of one of its months is released.
  pub can_request_withdrawal-succeeds :
      (why : String) (now : ℕ)
      → ((permissions caller db row).can_request_withdrawal && not (is_frozen row db))
        ≡ succeeds (request_withdrawal caller k why now db)
  unfolding request_withdrawal
  can_request_withdrawal-succeeds why now = ground arith

  -- For a leave on file that the caller can see: `can_decide_withdrawal` says whether a refusal of
  -- the withdrawal goes through.
  pub can_decide_withdrawal-succeeds :
      (why : Option String) (now : ℕ)
      → (permissions caller db row).can_decide_withdrawal
        ≡ succeeds (decide_withdrawal caller k (refusal why) now db)
  unfolding decide_withdrawal
  can_decide_withdrawal-succeeds why now = ground arith
