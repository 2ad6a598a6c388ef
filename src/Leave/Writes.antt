-- ===== src/Leave/Writes.antt =====
-- What a successful write of app/services/leave_service.py did: the row it read and its guards, the
-- row it wrote, and that it wrote nothing else but the audit log and messages.
use Prim.Native.String.{String}
use avora_be.Prelude.{
  ℕ, ◌≡◌, Bool, true, false, Option, none, some, inl, inr, arith, if◌then◌else◌, is_some,
  Option-cases,
}
use avora_be.Prelude.Dict.{lookup, insert}
use avora_be.Prelude.Service.{ok, Result-cases}
use avora_be.Calendar.{Date}
use avora_be.Auth.{CurrentUser}
use avora_be.Staff.{Employee}
use avora_be.Leave.{
  Leave, LeaveStatus, WithdrawalStatus, in_scope, may_decide, may_cancel_approved,
  may_request_withdrawal, may_decide_withdrawal,
}
use avora_be.Leave.Desk.{
  Db, LeaveCreate, LeaveDecision, Request, from_create, from_leave, any_clash, is_unaffordable,
  is_ineligible,
}
use avora_be.Leave.Handlers.{
  is_pending, requester_manager, new_leave, is_frozen, decision_rules, finish_decision, apply,
  decide, withdraw, cancel_approved, request_withdrawal, decide_withdrawal,
}

-- One row of the leaves replaced, and what the checks read left as it was.
pub record Wrote (k : ℕ) (row' : Leave) (db db' : Db) : Type 0 where
  pub leaves : db'.leaves ≡ insert k row' db.leaves
  pub employees : db'.employees ≡ db.employees
  pub released : db'.released ≡ db.released

-- The three checks of `_enforce_leave_rules` passed.
pub record Passed (who : ℕ) (e : Employee) (today : Date) (r : Request) (exclude : Option ℕ)
    (db : Db) : Type 0 where
  pub eligible : is_ineligible e r.leave_type r.start ≡ false
  pub free : any_clash r who (is_some exclude) exclude db.leaves ≡ false
  pub affordable : is_unaffordable db who e today r (is_some exclude) ≡ false

pub apply_writes :
    (caller : CurrentUser) (p : LeaveCreate) (today : Date) (k : ℕ) (db : Db) {r : Leave} {db' : Db}
    → apply caller p today k db ≡ ok (r, db')
    → (e : Employee) × (lookup caller.employee_id db.employees ≡ some e)
      × Passed caller.employee_id e today (from_create p) none db
      × (r ≡ new_leave p caller)
      × Wrote k r db db'
unfolding apply
apply_writes caller p today k db {r} {db'} h =
    elim (Option-cases (lookup caller.employee_id db.employees)) [
      | inl e ↦ absurd (ground (arith, e))
      | inr (emp, e) ↦ (
        emp,
        e,
        record { eligible = ground arith; free = ground arith; affordable = ground arith },
        ground arith,
        record { leaves = ground arith; employees = ground arith; released = ground arith },
      )
    ]

pub withdraw_writes :
    (caller : CurrentUser) (k : ℕ) (db : Db) {r : Leave} {db' : Db}
    → withdraw caller k db ≡ ok (r, db')
    → (row : Leave) × (lookup k db.leaves ≡ some row)
      × (row.employee_id ≡ caller.employee_id)
      × (is_pending row.status ≡ true)
      × (r ≡ record row { status = LeaveStatus.withdrawn })
      × Wrote k r db db'
unfolding withdraw
withdraw_writes caller k db {r} {db'} h = elim (Option-cases (lookup k db.leaves)) [
  | inl e ↦ absurd (ground (arith, e))
  | inr (row, e) ↦ (
    row,
    e,
    ground arith,
    ground arith,
    ground arith,
    record { leaves = ground arith; employees = ground arith; released = ground arith },
  )
]

pub cancel_approved_writes :
    (caller : CurrentUser) (k : ℕ) (db : Db) {r : Leave} {db' : Db}
    → cancel_approved caller k db ≡ ok (r, db')
    → (row : Leave) × (lookup k db.leaves ≡ some row)
      × (in_scope caller db.employees row ≡ true)
      × (may_cancel_approved caller row (requester_manager row db) ≡ true)
      × (is_frozen row db ≡ false)
      × (r ≡ record row { status = LeaveStatus.cancelled })
      × Wrote k r db db'
unfolding cancel_approved
cancel_approved_writes caller k db {r} {db'} h = elim (Option-cases (lookup k db.leaves)) [
  | inl e ↦ absurd (ground (arith, e))
  | inr (row, e) ↦ (
    row,
    e,
    ground arith,
    ground arith,
    ground arith,
    ground arith,
    record { leaves = ground arith; employees = ground arith; released = ground arith },
  )
]

pub request_withdrawal_writes :
    (caller : CurrentUser) (k : ℕ) (why : String) (now : ℕ) (db : Db) {r : Leave} {db' : Db}
    → request_withdrawal caller k why now db ≡ ok (r, db')
    → (row : Leave) × (lookup k db.leaves ≡ some row)
      × (may_request_withdrawal caller row ≡ true)
      × (is_frozen row db ≡ false)
      × (r ≡ record row {
        withdrawal_status = WithdrawalStatus.requested;
        withdrawal_reason = some why;
        withdrawal_requested_at = some now;
        withdrawal_reviewer_id = none;
        withdrawal_decided_at = none;
        withdrawal_decision_note = none;
      })
      × Wrote k r db db'
unfolding request_withdrawal
request_withdrawal_writes caller k why now db {r} {db'} h =
    elim (Option-cases (lookup k db.leaves)) [
      | inl e ↦ absurd (ground (arith, e))
      | inr (row, e) ↦ (
        row,
        e,
        ground arith,
        ground arith,
        ground arith,
        record { leaves = ground arith; employees = ground arith; released = ground arith },
      )
    ]

pub decide_withdrawal_writes :
    (caller : CurrentUser) (k : ℕ) (p : LeaveDecision) (now : ℕ) (db : Db) {r : Leave} {db' : Db}
    → decide_withdrawal caller k p now db ≡ ok (r, db')
    → (row : Leave) × (lookup k db.leaves ≡ some row)
      × (in_scope caller db.employees row ≡ true)
      × (may_decide_withdrawal caller row (requester_manager row db) ≡ true)
      × (p.approve ≡ true → is_frozen row db ≡ false)
      × (r ≡ record row {
        status = if p.approve then LeaveStatus.cancelled else row.status;
        withdrawal_status =
            if p.approve then WithdrawalStatus.granted else WithdrawalStatus.declined;
        withdrawal_reviewer_id = some caller.employee_id;
        withdrawal_decided_at = some now;
        withdrawal_decision_note = p.note;
      })
      × Wrote k r db db'
unfolding decide_withdrawal
decide_withdrawal_writes caller k p now db {r} {db'} h = elim (Option-cases (lookup k db.leaves)) [
  | inl e ↦ absurd (ground (arith, e))
  | inr (row, e) ↦ (
    row,
    e,
    ground arith,
    ground arith,
    ground arith,
    ground arith,
    record { leaves = ground arith; employees = ground arith; released = ground arith },
  )
]

decision_rules-Passed :
    (b : Bool) (row : Leave) (k : ℕ) (today : Date) (db : Db) {u : Unit {0}} {db' : Db}
    → decision_rules b row k today db ≡ ok (u, db')
    → (db' ≡ db)
      × (b ≡ true
          → (e : Employee) × (lookup row.employee_id db.employees ≡ some e)
            × Passed row.employee_id e today (from_leave row) (some k) db)
unfolding decision_rules
decision_rules-Passed false row k today db h = (ground arith, λ approving. absurd (ground arith))
decision_rules-Passed true row k today db h =
    elim (Option-cases (lookup row.employee_id db.employees)) [
      | inl e ↦ absurd (ground (arith, e))
      | inr (emp, e) ↦ (
        ground arith,
        λ approving. (
          emp,
          e,
          record { eligible = ground arith; free = ground arith; affordable = ground arith },
        ),
      )
    ]

finish_decision_writes :
    (caller : CurrentUser) (k : ℕ) (p : LeaveDecision) (now : ℕ) (row : Leave) (db : Db) {r : Leave}
    {db' : Db}
    → finish_decision caller k p now row db ≡ ok (r, db')
    → (r ≡ record row {
      status = if p.approve then LeaveStatus.approved else LeaveStatus.rejected;
      reviewer_id = some caller.employee_id;
      decided_at = some now;
      decision_note = p.note;
    })
      × Wrote k r db db'
unfolding finish_decision
finish_decision_writes caller k p now row db {r} {db'} h = (
  ground arith,
  record { leaves = ground arith; employees = ground arith; released = ground arith },
)

pub decide_writes :
    (caller : CurrentUser) (k : ℕ) (p : LeaveDecision) (today : Date) (now : ℕ) (db : Db)
    {r : Leave} {db' : Db}
    → decide caller k p today now db ≡ ok (r, db')
    → (row : Leave) × (lookup k db.leaves ≡ some row)
      × (in_scope caller db.employees row ≡ true)
      × (may_decide caller row (requester_manager row db) ≡ true)
      × (row.status ≡ LeaveStatus.submitted)
      × (p.approve ≡ true
          → (e : Employee) × (lookup row.employee_id db.employees ≡ some e)
            × Passed row.employee_id e today (from_leave row) (some k) db)
      × (r ≡ record row {
        status = if p.approve then LeaveStatus.approved else LeaveStatus.rejected;
        reviewer_id = some caller.employee_id;
        decided_at = some now;
        decision_note = p.note;
      })
      × Wrote k r db db'
unfolding decide
decide_writes caller k p today now db {r} {db'} h = elim (Option-cases (lookup k db.leaves)) [
  | inl e ↦ absurd (ground (arith, e))
  | inr (row, e) ↦ elim (Result-cases (decision_rules p.approve row k today db)) [
    | inr (bad, f) ↦ absurd (ground (arith, e, f))
    | inl ((u, db1), f) ↦
        let (same, passed) = decision_rules-Passed p.approve row k today db f in
        let end : finish_decision caller k p now row db ≡ ok (r, db') = ground arith in
        let wrote = finish_decision_writes caller k p now row db end in
        (row, e, ground arith, ground arith, ground arith, passed, wrote.0, wrote.1)
  ]
]
