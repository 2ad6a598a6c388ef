-- ===== src/Reimbursement/Writes.antt =====
-- What a successful write of app/services/reimbursement_service.py did: the row it read and its
-- guards, the row it wrote, and that it wrote nothing else.
use mathlib.Core.Option.{get_or}
use avora_be.Prelude.{
  ℕ, ◌≡◌, ◌≢◌, refl, true, false, none, some, [], ◌∷◌, ◌++◌, ◌⊎◌, inl, inr, arith, ◌==◌,
  if◌then◌else◌, Bool-cases, Option-cases,
}
use avora_be.Prelude.Dict.{lookup, insert}
use avora_be.Prelude.Service.{ok}
use avora_be.Auth.{CurrentUser, can_review_reimbursements}
use avora_be.Notice.{AuditEntry}
use avora_be.Reimbursement.{
  Db, Claim, ClaimStatus, ClaimDecision, ClaimCreate, Action, is_released, is_manager_reviewer,
  new_claim,
}
use avora_be.Reimbursement.Handlers.{
  submit, manager_decide, hr_decide, move_settlement_month, move_to, unschedule, withdraw,
  settlement_month_of,
}

-- One row of the claims replaced, and one line of the audit log written by the caller about it.
pub record Wrote (caller : CurrentUser) (k : ℕ) (row' : Claim) (db db' : Db) : Type 0 where
  pub claims : db'.claims ≡ insert k row' db.claims
  pub employees : db'.employees ≡ db.employees
  pub released : db'.released ≡ db.released
  pub entry : AuditEntry Action
  pub actor : entry.actor ≡ caller.employee_id
  pub target : entry.target ≡ k
  pub audit : db'.audit ≡ db.audit ++ (entry ∷ [])

pub withdraw_writes :
    (caller : CurrentUser) (k : ℕ) (db : Db) {r : Claim} {db' : Db}
    → withdraw caller k db ≡ ok (r, db')
    → (row : Claim) × (lookup k db.claims ≡ some row)
      × (row.employee_id ≡ caller.employee_id)
      × ((row.status ≡ ClaimStatus.submitted) ⊎ (row.status ≡ ClaimStatus.manager_approved))
      × (r ≡ record row { status = ClaimStatus.withdrawn })
      × Wrote caller k r db db'
unfolding withdraw
withdraw_writes caller k db {r} {db'} h = elim (Option-cases (lookup k db.claims)) [
  | inl e ↦ absurd (ground (arith, e))
  | inr (row, e) ↦ (
    row,
    e,
    ground arith,
    ground arith,
    ground arith,
    record {
      claims = ground arith;
      employees = ground arith;
      released = ground arith;
      entry = record { actor = caller.employee_id; action = Action.withdrawing; target = k };
      actor = refl;
      target = refl;
      audit = ground arith;
    },
  )
]

pub unschedule_writes :
    (caller : CurrentUser) (k : ℕ) (db : Db) {r : Claim} {db' : Db}
    → unschedule caller k db ≡ ok (r, db')
    → (row : Claim) × (lookup k db.claims ≡ some row)
      × (can_review_reimbursements caller ≡ true)
      × (row.status ≡ ClaimStatus.approved)
      × (is_released row.period_month db ≡ false)
      × (r ≡ record row {
        status = ClaimStatus.manager_approved;
        hr_reviewer_id = none;
        hr_decided_at = none;
        hr_note = none;
      })
      × Wrote caller k r db db'
unfolding unschedule
unschedule_writes caller k db {r} {db'} h = elim (Option-cases (lookup k db.claims)) [
  | inl e ↦ absurd (ground (arith, e))
  | inr (row, e) ↦ (
    row,
    e,
    ground arith,
    ground arith,
    ground arith,
    ground arith,
    record {
      claims = ground arith;
      employees = ground arith;
      released = ground arith;
      entry = record { actor = caller.employee_id; action = Action.unscheduling; target = k };
      actor = refl;
      target = refl;
      audit = ground arith;
    },
  )
]

pub manager_decide_writes :
    (caller : CurrentUser) (k : ℕ) (p : ClaimDecision) (now : ℕ) (db : Db) {r : Claim} {db' : Db}
    → manager_decide caller k p now db ≡ ok (r, db')
    → (row : Claim) × (lookup k db.claims ≡ some row)
      × (caller.employee_id ≢ row.employee_id)
      × (is_manager_reviewer caller row db ≡ true)
      × (row.status ≡ ClaimStatus.submitted)
      × (r ≡ record row {
        manager_reviewer_id = some caller.employee_id;
        manager_decided_at = some now;
        manager_note = p.note;
        status = if p.approve then ClaimStatus.manager_approved else ClaimStatus.rejected;
      })
      × Wrote caller k r db db'
unfolding manager_decide
manager_decide_writes caller k p now db {r} {db'} h = elim (Option-cases (lookup k db.claims)) [
  | inl e ↦ absurd (ground (arith, e))
  | inr (row, e) ↦ (
    row,
    e,
    ground arith,
    ground arith,
    ground arith,
    ground arith,
    record {
      claims = ground arith;
      employees = ground arith;
      released = ground arith;
      entry = record {
        actor = caller.employee_id;
        action = Action.manager_deciding r.status;
        target = k;
      };
      actor = refl;
      target = refl;
      audit = ground arith;
    },
  )
]

pub hr_decide_writes :
    (caller : CurrentUser) (k : ℕ) (p : ClaimDecision) (now : ℕ) (db : Db) {r : Claim} {db' : Db}
    → hr_decide caller k p now db ≡ ok (r, db')
    → (row : Claim) × (lookup k db.claims ≡ some row)
      × (can_review_reimbursements caller ≡ true)
      × (caller.employee_id ≢ row.employee_id)
      × (row.status ≡ ClaimStatus.manager_approved)
      × (p.approve ≡ true → is_released r.period_month db ≡ false)
      × (r ≡ record row {
        period_month =
            if p.approve then get_or p.settlement_month row.period_month else row.period_month;
        hr_reviewer_id = some caller.employee_id;
        hr_decided_at = some now;
        hr_note = p.note;
        status = if p.approve then ClaimStatus.approved else ClaimStatus.rejected;
      })
      × Wrote caller k r db db'
unfolding hr_decide settlement_month_of
hr_decide_writes caller k p now db {r} {db'} h = elim (Option-cases (lookup k db.claims)) [
  | inl e ↦ absurd (ground (arith, e))
  | inr (row, e) ↦ (
    row,
    e,
    ground arith,
    ground arith,
    ground arith,
    ground arith,
    ground arith,
    record {
      claims = ground arith;
      employees = ground arith;
      released = ground arith;
      entry = record {
        actor = caller.employee_id;
        action = Action.hr_deciding r.status;
        target = k;
      };
      actor = refl;
      target = refl;
      audit = ground arith;
    },
  )
]

-- A move to another month, or nothing at all.
pub move_settlement_month_writes :
    (caller : CurrentUser) (k month : ℕ) (db : Db) {r : Claim} {db' : Db}
    → move_settlement_month caller k month db ≡ ok (r, db')
    → (row : Claim) × (lookup k db.claims ≡ some row)
      × (can_review_reimbursements caller ≡ true)
      × (row.status ≡ ClaimStatus.approved)
      × (r ≡ record row { period_month = month })
      × ((row.period_month ≡ month) × (db' ≡ db)
          ⊎ (is_released row.period_month db ≡ false)
            × (is_released month db ≡ false)
            × Wrote caller k r db db')
unfolding move_settlement_month move_to settlement_month_of
move_settlement_month_writes caller k month db {r} {db'} h =
    elim (Option-cases (lookup k db.claims)) [
      | inl e ↦ absurd (ground (arith, e))
      | inr (row, e) ↦ elim (Bool-cases (month == row.period_month)) [
        | inl same ↦
            (row, e, ground arith, ground arith, ground arith, inl (ground arith, ground arith))
        | inr other ↦ (
          row,
          e,
          ground arith,
          ground arith,
          ground arith,
          inr (
            ground arith,
            ground arith,
            record {
              claims = ground arith;
              employees = ground arith;
              released = ground arith;
              entry = record {
                actor = caller.employee_id;
                action = Action.settlement_month_moving row.period_month month;
                target = k;
              };
              actor = refl;
              target = refl;
              audit = ground arith;
            },
          ),
        )
      ]
    ]

pub submit_writes :
    (caller : CurrentUser) (p : ClaimCreate) (k : ℕ) (db : Db) {r : Claim} {db' : Db}
    → submit caller p k db ≡ ok (r, db')
    → (r ≡ new_claim p caller.employee_id) × Wrote caller k r db db'
unfolding submit
submit_writes caller p k db {r} {db'} h = (
  ground arith,
  record {
    claims = ground arith;
    employees = ground arith;
    released = ground arith;
    entry = record { actor = caller.employee_id; action = Action.submitting; target = k };
    actor = refl;
    target = refl;
    audit = ground arith;
  },
)
