-- ===== src/Regularization/Writes.antt =====
-- What a successful call of app/services/regularization_service.py did: the row it read and its
-- guards, and what it wrote.
use mathlib.Core.Option.{get_or}
use avora_be.Prelude.{
  ℕ, ◌≡◌, ◌≢◌, ◌<◌, true, false, some, inl, inr, arith, if◌then◌else◌, Bool-cases, Option-cases,
}
use avora_be.Prelude.Dict.{lookup, insert}
use avora_be.Prelude.Service.{ok, Result-cases}
use avora_be.Auth.{CurrentUser}
use avora_be.Staff.{manager_of}
use avora_be.Staff.Scope.{can_read}
use avora_be.Regularization.{
  Db, Regularization, RegularizationStatus, RegularizationCreate, RegularizationReview,
  has_active_for_day, new_reg, request, review, may_decide, spend_credit, spec, default_policy,
  count_approved_in_month, month_of,
}

-- The credits that the policy in force grants in a month.
abbrev pub granted : Db → ℕ
granted db = (get_or db.policy default_policy).monthly_regularizations

-- One row replaced, or added; the staff and the policy in force are as before.
pub record Wrote (k : ℕ) (reg : Regularization) (db db' : Db) : Type 0 where
  pub regs : db'.regs ≡ insert k reg db.regs
  pub employees : db'.employees ≡ db.employees
  pub credits : granted db' ≡ granted db

pub request_writes :
    (caller : CurrentUser) (p : RegularizationCreate) (k : ℕ) (db : Db) {r : Regularization}
    {db' : Db}
    → request caller p k db ≡ ok (r, db')
    → (has_active_for_day caller.employee_id p.day db ≡ false)
      × (r ≡ new_reg p caller.employee_id)
      × Wrote k r db db'
unfolding request
request_writes caller p k db h = (
  ground arith,
  ground arith,
  record { regs = ground arith; employees = ground arith; credits = ground arith },
)

-- Reading the policy leaves every table but its own as it was, and its grant too.
spend_credit_writes :
    (reg : Regularization) (db : Db) {u : Unit {0}} {db' : Db}
    → spend_credit reg db ≡ ok (u, db')
    → (count_approved_in_month reg.employee_id (month_of reg.day) db.regs < granted db)
      × (db'.regs ≡ db.regs)
      × (db'.employees ≡ db.employees)
      × (granted db' ≡ granted db)
unfolding spend_credit spec
spend_credit_writes reg db {u} {db'} h = elim (Option-cases db.policy) [
  | inl e ↦ (ground arith, ground arith, ground arith, ground arith)
  | inr (p, e) ↦ (ground arith, ground arith, ground arith, ground arith)
]

-- The review that was asked for, on the row.
abbrev pub reviewed : CurrentUser → RegularizationReview → Regularization → Regularization
reviewed caller p reg = record reg {
  status = if p.approve then RegularizationStatus.approved else RegularizationStatus.rejected;
  reviewed_by_id = some caller.employee_id;
  review_note = p.review_note;
}

pub review_writes :
    (caller : CurrentUser) (k : ℕ) (p : RegularizationReview) (db : Db) {r : Regularization}
    {db' : Db}
    → review caller k p db ≡ ok (r, db')
    → (reg : Regularization) × (lookup k db.regs ≡ some reg)
      × (reg.employee_id ≢ caller.employee_id)
      × (can_read caller db.employees reg.employee_id ≡ true)
      × (may_decide caller reg (manager_of (lookup reg.employee_id db.employees)) ≡ true)
      × (reg.status ≡ RegularizationStatus.pending)
      × (p.approve ≡ true
          → count_approved_in_month reg.employee_id (month_of reg.day) db.regs < granted db)
      × (r ≡ reviewed caller p reg)
      × Wrote k r db db'
unfolding review
review_writes caller k p db {r} {db'} h = elim (Option-cases (lookup k db.regs)) [
  | inl e ↦ absurd (ground (arith, e))
  | inr (reg, e) ↦ elim (Bool-cases p.approve) [
    | inl yes_ ↦ elim (Result-cases (spend_credit reg db)) [
      | inl ((u, db1), s) ↦
          let (below, same, staff, grants) = spend_credit_writes reg db s in
          (
            reg,
            e,
            ground arith,
            ground arith,
            ground arith,
            ground arith,
            (λ _. below),
            ground arith,
            record { regs = ground arith; employees = ground arith; credits = ground arith },
          )
      | inr (x, s) ↦ absurd (ground arith)
    ]
    | inr no_ ↦ (
      reg,
      e,
      ground arith,
      ground arith,
      ground arith,
      ground arith,
      (λ a. absurd (ground arith)),
      ground arith,
      record { regs = ground arith; employees = ground arith; credits = ground arith },
    )
  ]
]
