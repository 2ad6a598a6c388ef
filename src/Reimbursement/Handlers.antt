-- ===== src/Reimbursement/Handlers.antt =====
-- The operations of app/services/reimbursement_service.py: submit, manager_decide, hr_decide,
-- move_settlement_month, unschedule and withdraw, whole, and the review queue.
use mathlib.Core.Option.{get_or}
use avora_be.Prelude.{
  ℕ, Bool, false, not, ◌&&◌, ◌||◌, Option, none, some, List, [], ◌∷◌, ◌==◌, if◌then◌else◌, is_some,
}
use avora_be.Prelude.Service.{AppError, Service, ◌>>=◌, ◌>>◌, return, raise_if, or_raise, gets}
use avora_be.Prelude.Dict.{Dict, lookup}
use avora_be.Auth.{CurrentUser, can_review_reimbursements}
use avora_be.Notice.{Message, notify}
use avora_be.Reimbursement.{
  ClaimStatus, Claim, ClaimCreate, ClaimDecision, Action, Title, Db, is_submitted,
  is_manager_approved, is_approved, is_released, put_claim, append_audit, notify_each, send,
  final_reviewers, step1_recipients, is_manager_reviewer, new_claim,
}

-- `get`, and `NotFoundError` for none.
abbrev find_claim : ℕ → Service Db Claim
find_claim k = do row ← gets (λ db. lookup k db.claims); or_raise row AppError.not_found_error

-- `_notify_applicant`
abbrev pub notify_applicant : ℕ → Claim → Bool → List (Message Title) → List (Message Title)
notify_applicant k row granted =
    notify row.employee_id (if granted then Title.claim_approved else Title.claim_declined) k
      (if is_some row.hr_reviewer_id then row.hr_reviewer_id else row.manager_reviewer_id)

unfoldable pub submit : CurrentUser → ClaimCreate → ℕ → Service Db Claim
submit caller p k = do
  let row = new_claim p caller.employee_id
  put_claim k row
  append_audit caller.employee_id Action.submitting k
  to ← gets (λ db. step1_recipients caller db.employees)
  send (notify_each to [] caller.employee_id Title.to_review k caller.employee_id)
  return row

-- Step 1.
unfoldable pub manager_decide : CurrentUser → ℕ → ClaimDecision → ℕ → Service Db Claim
manager_decide caller k p now = do
  row ← find_claim k
  raise_if (caller.employee_id == row.employee_id) AppError.authorization_error
  reviewer ← gets (is_manager_reviewer caller row)
  raise_if (not reviewer) AppError.authorization_error
  raise_if (not (is_submitted row.status)) AppError.conflict_error
  let row' = record row {
    manager_reviewer_id = some caller.employee_id;
    manager_decided_at = some now;
    manager_note = p.note;
    status = if p.approve then ClaimStatus.manager_approved else ClaimStatus.rejected;
  }
  put_claim k row'
  append_audit caller.employee_id (Action.manager_deciding row'.status) k
  to ← gets (λ db. final_reviewers db.employees)
  send (
      if p.approve
      then notify_each to [] row'.employee_id Title.for_final_approval k caller.employee_id
      else notify_applicant k row' false)
  return row'

-- `_settlement_month`: HR's choice, else the claim's own month; a released month is refused.
unfoldable pub settlement_month_of : Claim → Option ℕ → Service Db ℕ
settlement_month_of row chosen = do
  let month = get_or chosen row.period_month
  released ← gets (is_released month)
  raise_if released AppError.conflict_error
  return month

-- Step 2.
unfoldable pub hr_decide : CurrentUser → ℕ → ClaimDecision → ℕ → Service Db Claim
unfolding settlement_month_of
hr_decide caller k p now = do
  row ← find_claim k
  raise_if (not (can_review_reimbursements caller) || caller.employee_id == row.employee_id)
      AppError.authorization_error
  raise_if (not (is_manager_approved row.status)) AppError.conflict_error
  month ← if p.approve then settlement_month_of row p.settlement_month else return row.period_month
  let row' = record row {
    period_month = month;
    hr_reviewer_id = some caller.employee_id;
    hr_decided_at = some now;
    hr_note = p.note;
    status = if p.approve then ClaimStatus.approved else ClaimStatus.rejected;
  }
  put_claim k row'
  append_audit caller.employee_id (Action.hr_deciding row'.status) k
  send (notify_applicant k row' p.approve)
  return row'

-- The part of `move_settlement_month` after its no-op: both months must be open.
unfoldable pub move_to : CurrentUser → ℕ → Claim → ℕ → Service Db Claim
unfolding settlement_month_of
move_to caller k row month = do
  paid ← gets (is_released row.period_month)
  raise_if paid AppError.conflict_error
  to ← settlement_month_of row (some month)
  let row' = record row { period_month = to }
  put_claim k row'
  append_audit caller.employee_id (Action.settlement_month_moving row.period_month to) k
  return row'

unfoldable pub move_settlement_month : CurrentUser → ℕ → ℕ → Service Db Claim
unfolding move_to
move_settlement_month caller k month = do
  row ← find_claim k
  raise_if (not (can_review_reimbursements caller)) AppError.authorization_error
  raise_if (not (is_approved row.status)) AppError.conflict_error
  if month == row.period_month then return row else move_to caller k row month

-- Back to the queue of the final step.
unfoldable pub unschedule : CurrentUser → ℕ → Service Db Claim
unschedule caller k = do
  row ← find_claim k
  raise_if (not (can_review_reimbursements caller)) AppError.authorization_error
  raise_if (not (is_approved row.status)) AppError.conflict_error
  paid ← gets (is_released row.period_month)
  raise_if paid AppError.conflict_error
  let row' = record row {
    status = ClaimStatus.manager_approved;
    hr_reviewer_id = none;
    hr_decided_at = none;
    hr_note = none;
  }
  put_claim k row'
  append_audit caller.employee_id Action.unscheduling k
  send (notify row.employee_id Title.back_under_review k (some caller.employee_id))
  return row'

unfoldable pub withdraw : CurrentUser → ℕ → Service Db Claim
withdraw caller k = do
  row ← find_claim k
  raise_if (not (row.employee_id == caller.employee_id)) AppError.authorization_error
  raise_if (not (is_submitted row.status || is_manager_approved row.status)) AppError.conflict_error
  let row' = record row { status = ClaimStatus.withdrawn }
  put_claim k row'
  append_audit caller.employee_id Action.withdrawing k
  return row'

-- The test that `decidable_ids` makes of one row.
abbrev pub decidable : CurrentUser → Db → Claim → Bool
decidable caller db row =
    if row.employee_id == caller.employee_id
    then false
    else is_submitted row.status && is_manager_reviewer caller row db
      || is_manager_approved row.status && can_review_reimbursements caller

-- `decidable_ids`
unfoldable pub decidable_ids : CurrentUser → Db → Dict Claim → List ℕ
decidable_ids caller db [] = []
decidable_ids caller db ((k, row) ∷ rows) =
    if decidable caller db row
    then k ∷ decidable_ids caller db rows
    else decidable_ids caller db rows
