-- ===== src/Reimbursement/Review.antt =====
-- The review queues of app/services/reimbursement_service.py: `decidable_ids` against the rules
-- that the two decisions enforce.
use Prim.Native.String.{String}
use avora_be.Prelude.{ℕ, ◌≡◌, false, not, ◌&&◌, ◌||◌, Option, none, some, arith, ◌==◌}
use avora_be.Prelude.Dict.{lookup}
use avora_be.Prelude.Service.{succeeds}
use avora_be.Auth.{CurrentUser, can_review_reimbursements}
use avora_be.Reimbursement.{
  Db, Claim, ClaimDecision, is_manager_reviewer, is_submitted, is_manager_approved,
}
use avora_be.Reimbursement.Handlers.{decidable, manager_decide, hr_decide}

abbrev pub rejection : Option String → ClaimDecision
rejection note = record { approve = false; note = note; settlement_month = none }

manager_decide-succeeds :
    (caller : CurrentUser) (k : ℕ) (p : ClaimDecision) (now : ℕ) (db : Db) {row : Claim}
    → lookup k db.claims ≡ some row
    → succeeds (manager_decide caller k p now db) ≡ (
        not (caller.employee_id == row.employee_id)
        && is_manager_reviewer caller row db
        && is_submitted row.status)
unfolding manager_decide
manager_decide-succeeds caller k p now db {row} e = ground arith

hr_decide-reject_succeeds :
    (caller : CurrentUser) (k : ℕ) (why : Option String) (now : ℕ) (db : Db) {row : Claim}
    → lookup k db.claims ≡ some row
    → succeeds (hr_decide caller k (rejection why) now db) ≡ (
        not (caller.employee_id == row.employee_id)
        && can_review_reimbursements caller
        && is_manager_approved row.status)
unfolding hr_decide
hr_decide-reject_succeeds caller k why now db {row} e = ground arith

-- For a claim that is on file, the test of the review queue is exactly whether one of the two
-- decisions, taken now, would go through: the manager's step with any answer, or the final step
-- with a rejection (an approval may still meet a month that was released).
pub decidable-succeeds :
    (caller : CurrentUser) (k : ℕ) (p : ClaimDecision) (why : Option String) (now : ℕ) (db : Db)
    {row : Claim}
    → lookup k db.claims ≡ some row
    → decidable caller db row ≡ (
        succeeds (manager_decide caller k p now db)
        || succeeds (hr_decide caller k (rejection why) now db))
decidable-succeeds caller k p why now db {row} e =
    rw
      (manager_decide-succeeds caller k p now db e, hr_decide-reject_succeeds caller k why now db e)
      (ground arith)
