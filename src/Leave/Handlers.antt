-- ===== src/Leave/Handlers.antt =====
-- The operations of app/services/leave_service.py: apply, decide, withdraw, cancel_approved,
-- request_withdrawal and decide_withdrawal, whole, and the read model `permissions`.
use Prim.Native.String.{String}
use avora_be.Prelude.{
  ℕ, Bool, true, false, not, Option, none, some, List, [], ◌∷◌, any, keep, ◌==◌, if◌then◌else◌,
}
use avora_be.Prelude.Dict.{Dict, lookup, insert}
use avora_be.Prelude.Service.{
  AppError, Service, ◌>>=◌, ◌>>◌, return, raise_if, or_raise, gets, modify,
}
use avora_be.Calendar.{Date}
use avora_be.Auth.{CurrentUser}
use avora_be.Staff.{Employee, manager_of, list_hr}
use avora_be.Notice.{Message, append_entry, notify}
use avora_be.Leave.{
  Leave, LeaveStatus, WithdrawalStatus, is_submitted, is_approved, is_requested, in_scope,
  may_decide, may_cancel_approved, may_request_withdrawal, may_decide_withdrawal, can_decide_now,
}
use avora_be.Leave.Balance.{months_between}
use avora_be.Leave.Desk.{
  Db, Action, Title, LeaveCreate, LeaveDecision, from_create, from_leave, is_past, is_short_notice,
  enforce_leave_rules,
}

-- `get_for_update`, and `NotFoundError` for none.
abbrev find_leave : ℕ → Service Db Leave
find_leave k = do leave ← gets (λ db. lookup k db.leaves); or_raise leave AppError.not_found_error

-- `get_in_scope`, and `NotFoundError` for none.
abbrev find_in_scope : CurrentUser → ℕ → Service Db Leave
find_in_scope caller k = do
  leave ← find_leave k
  visible ← gets (λ db. in_scope caller db.employees leave)
  raise_if (not visible) AppError.not_found_error
  return leave

abbrev save : ℕ → Leave → ℕ → Action → Service Db (Unit {0})
save k leave who act =
    modify (λ db. record db {
      leaves = insert k leave db.leaves;
      audit = append_entry who act k db.audit;
    })

abbrev send : (Db → List (Message Title) → List (Message Title)) → Service Db (Unit {0})
send f = modify (λ db. record db { messages = f db db.messages })

-- `_requester_manager_id`
abbrev pub requester_manager : Leave → Db → Option ℕ
requester_manager leave db = manager_of (lookup leave.employee_id db.employees)

abbrev is_active_row : Option Employee → Bool
is_active_row none = false
is_active_row (some e) = e.is_active

-- `_deciders_for`
abbrev pub deciders_for : ℕ → Option ℕ → Dict Employee → List ℕ
deciders_for who none es = keep (λ h. not (h == who)) (list_hr es)
deciders_for who (some m) es =
    if is_active_row (lookup m es) then m ∷ [] else keep (λ h. not (h == who)) (list_hr es)

-- One message to each, in order.
abbrev notify_all : List ℕ → Title → ℕ → ℕ → List (Message Title) → List (Message Title)
notify_all [] title k who ms = ms
notify_all (r ∷ rs) title k who ms = notify_all rs title k who (notify r title k (some who) ms)

-- `create`
abbrev pub new_leave : LeaveCreate → CurrentUser → Leave
new_leave p caller = record {
  employee_id = caller.employee_id;
  leave_type = p.leave_type;
  half_day_period = p.half_day_period;
  start_date = p.start_date;
  end_date = p.end_date;
  reason = p.reason;
  status = LeaveStatus.submitted;
  reviewer_id = caller.manager_id;
  decided_at = none;
  decision_note = none;
  withdrawal_status = WithdrawalStatus.not_asked;
  withdrawal_reason = none;
  withdrawal_requested_at = none;
  withdrawal_reviewer_id = none;
  withdrawal_decided_at = none;
  withdrawal_decision_note = none;
}

unfoldable pub apply : CurrentUser → LeaveCreate → Date → ℕ → Service Db Leave
apply caller p today k = do
  row ← gets (λ db. lookup caller.employee_id db.employees)
  employee ← or_raise row AppError.not_found_error
  past ← gets (λ db. is_past db today p.start_date)
  raise_if past AppError.validation_error
  short ← gets (λ db. is_short_notice db today p)
  raise_if short AppError.validation_error
  enforce_leave_rules caller.employee_id employee today (from_create p) none
  let leave = new_leave p caller
  save k leave caller.employee_id Action.applying
  send (λ db.
      notify_all (deciders_for caller.employee_id caller.manager_id db.employees) Title.to_approve k
        caller.employee_id)
  return leave

-- The rules that an approval runs again; a rejection runs none.
unfoldable pub decision_rules : Bool → Leave → ℕ → Date → Service Db (Unit {0})
decision_rules false leave k today = return tt
decision_rules true leave k today = do
  row ← gets (λ db. lookup leave.employee_id db.employees)
  requester ← or_raise row AppError.not_found_error
  enforce_leave_rules leave.employee_id requester today (from_leave leave) (some k)

-- The writes of `decide`, after its checks.
unfoldable pub finish_decision : CurrentUser → ℕ → LeaveDecision → ℕ → Leave → Service Db Leave
finish_decision caller k p now leave = do
  let leave' = record leave {
    status = if p.approve then LeaveStatus.approved else LeaveStatus.rejected;
    reviewer_id = some caller.employee_id;
    decided_at = some now;
    decision_note = p.note;
  }
  save k leave' caller.employee_id (Action.deciding leave'.status)
  send (λ db.
      notify leave.employee_id (if p.approve then Title.leave_approved else Title.leave_rejected) k
        (some caller.employee_id))
  return leave'

unfoldable pub decide : CurrentUser → ℕ → LeaveDecision → Date → ℕ → Service Db Leave
unfolding decision_rules finish_decision
decide caller k p today now = do
  leave ← find_in_scope caller k
  may ← gets (λ db. may_decide caller leave (requester_manager leave db))
  raise_if (not may) AppError.authorization_error
  raise_if (not (is_submitted leave.status)) AppError.conflict_error
  decision_rules p.approve leave k today
  finish_decision caller k p now leave

-- Submitted, or a draft.
abbrev pub is_pending : LeaveStatus → Bool
is_pending LeaveStatus.submitted = true
is_pending LeaveStatus.draft = true
is_pending _ = false

unfoldable pub withdraw : CurrentUser → ℕ → Service Db Leave
withdraw caller k = do
  leave ← find_leave k
  raise_if (not (leave.employee_id == caller.employee_id)) AppError.authorization_error
  raise_if (not (is_pending leave.status)) AppError.conflict_error
  let leave' = record leave { status = LeaveStatus.withdrawn }
  save k leave' caller.employee_id Action.withdrawing
  return leave'

-- Some month of the leave has released payslips.
abbrev pub is_frozen : Leave → Db → Bool
is_frozen leave db =
    any (λ m. any (◌==◌ m) db.released) (months_between leave.start_date leave.end_date)

-- `_enforce_payroll_open`
abbrev enforce_payroll_open : Leave → Service Db (Unit {0})
enforce_payroll_open leave = do
  frozen ← gets (is_frozen leave)
  raise_if frozen AppError.conflict_error

-- The deciders of `_notify_cancelled` after the owner, as `recipients.setdefault` keeps them.
abbrev notify_others : List ℕ → ℕ → ℕ → ℕ → List (Message Title) → List (Message Title)
notify_others [] owner k who ms = ms
notify_others (r ∷ rs) owner k who ms =
    notify_others rs owner k who
      (if r == owner then ms else notify r Title.an_approved_leave_cancelled k (some who) ms)

-- `_notify_cancelled`
abbrev notify_cancelled : CurrentUser → ℕ → Leave → Db → List (Message Title) → List (Message Title)
notify_cancelled caller k leave db ms =
    notify_others (deciders_for leave.employee_id (requester_manager leave db) db.employees)
      leave.employee_id k caller.employee_id
      (notify leave.employee_id Title.your_leave_cancelled k (some caller.employee_id) ms)

unfoldable pub cancel_approved : CurrentUser → ℕ → Service Db Leave
cancel_approved caller k = do
  leave ← find_in_scope caller k
  raise_if (not (is_approved leave.status)) AppError.conflict_error
  may ← gets (λ db. may_cancel_approved caller leave (requester_manager leave db))
  raise_if (not may) (
      if caller.employee_id == leave.employee_id
      then AppError.conflict_error
      else AppError.authorization_error)
  enforce_payroll_open leave
  let leave' = record leave { status = LeaveStatus.cancelled }
  save k leave' caller.employee_id Action.cancelling
  send (notify_cancelled caller k leave)
  return leave'

unfoldable pub request_withdrawal : CurrentUser → ℕ → String → ℕ → Service Db Leave
request_withdrawal caller k why now = do
  leave ← find_leave k
  raise_if (not (leave.employee_id == caller.employee_id)) AppError.not_found_error
  raise_if (not (is_approved leave.status)) AppError.conflict_error
  raise_if (not (may_request_withdrawal caller leave)) AppError.conflict_error
  enforce_payroll_open leave
  let leave' = record leave {
    withdrawal_status = WithdrawalStatus.requested;
    withdrawal_reason = some why;
    withdrawal_requested_at = some now;
    withdrawal_reviewer_id = none;
    withdrawal_decided_at = none;
    withdrawal_decision_note = none;
  }
  save k leave' caller.employee_id Action.requesting_withdrawal
  send (λ db.
      notify_all (deciders_for leave.employee_id (requester_manager leave db) db.employees)
        Title.asked_to_withdraw k caller.employee_id)
  return leave'

unfoldable pub decide_withdrawal : CurrentUser → ℕ → LeaveDecision → ℕ → Service Db Leave
decide_withdrawal caller k p now = do
  leave ← find_in_scope caller k
  raise_if (not (is_requested leave.withdrawal_status)) AppError.conflict_error
  may ← gets (λ db. may_decide_withdrawal caller leave (requester_manager leave db))
  raise_if (not may) AppError.authorization_error
  if p.approve then enforce_payroll_open leave else return tt
  let leave' = record leave {
    status = if p.approve then LeaveStatus.cancelled else leave.status;
    withdrawal_status = if p.approve then WithdrawalStatus.granted else WithdrawalStatus.declined;
    withdrawal_reviewer_id = some caller.employee_id;
    withdrawal_decided_at = some now;
    withdrawal_decision_note = p.note;
  }
  save k leave' caller.employee_id (Action.deciding_withdrawal leave'.withdrawal_status)
  send (λ db.
      notify leave.employee_id
        (if p.approve then Title.leave_withdrawn else Title.withdrawal_declined) k
        (some caller.employee_id))
  return leave'

pub record LeavePermissions : Type 0 where
  pub can_decide : Bool
  pub can_cancel : Bool
  pub can_request_withdrawal : Bool
  pub can_decide_withdrawal : Bool

-- The entry of `permissions` for one leave.
abbrev pub permissions : CurrentUser → Db → Leave → LeavePermissions
permissions caller db leave = record {
  can_decide = can_decide_now caller leave (requester_manager leave db);
  can_cancel = may_cancel_approved caller leave (requester_manager leave db);
  can_request_withdrawal = may_request_withdrawal caller leave;
  can_decide_withdrawal = may_decide_withdrawal caller leave (requester_manager leave db);
}
