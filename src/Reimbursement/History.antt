-- ===== src/Reimbursement/History.antt =====
-- Histories of the claims of app/services/reimbursement_service.py: any service call that
-- succeeds, a release of a month's payslips, or a change of the staff records, in any order.
use avora_be.Prelude.{ℕ, ◌≡◌, ◌≢◌, subst, sym, Option, none, some, [], ◌∷◌, ◌⊎◌, inl, inr, arith}
use avora_be.Prelude.Dict.{Dict, lookup, lookup-insert_cases}
use avora_be.Prelude.Service.{ok}
use avora_be.Auth.{CurrentUser}
use avora_be.Staff.{Employee}
use avora_be.Reimbursement.{Db, Claim, ClaimStatus, ClaimDecision, ClaimCreate, new_claim}
use avora_be.Reimbursement.Handlers.{
  submit, manager_decide, hr_decide, move_settlement_month, unschedule, withdraw,
}
use avora_be.Reimbursement.Writes.{
  Wrote, submit_writes, manager_decide_writes, hr_decide_writes, move_settlement_month_writes,
  unschedule_writes, withdraw_writes,
}

pub data Step (db : Db) : Db → Type 0 where
  submits :
      (caller : CurrentUser) (p : ClaimCreate) (k : ℕ) {r : Claim} {db' : Db}
      → lookup k db.claims ≡ none
      → submit caller p k db ≡ ok (r, db')
      → Step db db'
  manager_decides :
      (caller : CurrentUser) (k : ℕ) (p : ClaimDecision) (now : ℕ) {r : Claim} {db' : Db}
      → manager_decide caller k p now db ≡ ok (r, db')
      → Step db db'
  hr_decides :
      (caller : CurrentUser) (k : ℕ) (p : ClaimDecision) (now : ℕ) {r : Claim} {db' : Db}
      → hr_decide caller k p now db ≡ ok (r, db')
      → Step db db'
  moves :
      (caller : CurrentUser) (k month : ℕ) {r : Claim} {db' : Db}
      → move_settlement_month caller k month db ≡ ok (r, db')
      → Step db db'
  unschedules :
      (caller : CurrentUser) (k : ℕ) {r : Claim} {db' : Db}
      → unschedule caller k db ≡ ok (r, db')
      → Step db db'
  withdraws :
      (caller : CurrentUser) (k : ℕ) {r : Claim} {db' : Db}
      → withdraw caller k db ≡ ok (r, db')
      → Step db db'
  releases : (month : ℕ) → Step db (record db { released = month ∷ db.released })
  staffs : (es : Dict Employee) → Step db (record db { employees = es })

pub data Run (db : Db) : Db → Type 0 where
  done : Run db db
  next : {db' db'' : Db} → Run db db' → Step db' db'' → Run db db''

-- Somebody other than the claimant.
unfoldable pub Other : Claim → Option ℕ → Type 0
Other row o = (a : ℕ) × (o ≡ some a) × (a ≢ row.employee_id)

-- The reviews that a status presupposes.
unfoldable pub FourEyes : Claim → Type 0
FourEyes row =
    ((row.status ≡ ClaimStatus.manager_approved) ⊎ (row.status ≡ ClaimStatus.approved)
      → Other row row.manager_reviewer_id)
    × (row.status ≡ ClaimStatus.approved → Other row row.hr_reviewer_id)

unfoldable pub EachFourEyes : Db → Type 0
EachFourEyes db = (k : ℕ) (row : Claim) → lookup k db.claims ≡ some row → FourEyes row

-- A row found after a write is the row written, or was there before.
pub written_or_old :
    {caller : CurrentUser} {k : ℕ} {r : Claim} {db db' : Db}
    → Wrote caller k r db db'
    → (j : ℕ) {row : Claim} → lookup j db'.claims ≡ some row
    → ((j ≡ k) × (r ≡ row)) ⊎ ((j ≢ k) × (lookup j db.claims ≡ some row))
written_or_old {k} {r} {db} w j {row} e =
    lookup-insert_cases j k r db.claims (subst (λ d. lookup j d ≡ some row) w.claims e)

write-EachFourEyes :
    {caller : CurrentUser} {k : ℕ} {r : Claim} {db db' : Db}
    → Wrote caller k r db db'
    → FourEyes r
    → EachFourEyes db
    → EachFourEyes db'
unfolding EachFourEyes
write-EachFourEyes w four all j row e = elim (written_or_old w j e) [
  | inl (same, new) ↦ subst FourEyes new four
  | inr (other, old) ↦ all j row old
]

-- What each decision leaves on the row that it writes.
module _ (caller : CurrentUser) (k : ℕ) (db : Db) (all : EachFourEyes db) where
  manager_decide-FourEyes :
      (p : ClaimDecision) (now : ℕ) {r : Claim} {db' : Db}
      → manager_decide caller k p now db ≡ ok (r, db')
      → FourEyes r
  unfolding FourEyes Other
  manager_decide-FourEyes p now h =
      let (row, e, other, _, s, same, w) = manager_decide_writes caller k p now db h in
      (λ _. (caller.employee_id, ground arith, ground arith), λ s. absurd (ground arith))

  hr_decide-FourEyes :
      (p : ClaimDecision) (now : ℕ) {r : Claim} {db' : Db}
      → hr_decide caller k p now db ≡ ok (r, db')
      → FourEyes r
  unfolding FourEyes Other EachFourEyes
  hr_decide-FourEyes p now {r} h =
      let (row, e, _, other, s, _, same, w) = hr_decide_writes caller k p now db h in
      let (a, by, ne) = (all k row e).0 (inl s) in
      (λ _. (a, ground arith, ground arith), λ s. (caller.employee_id, ground arith, ground arith))

  move_settlement_month-FourEyes :
      (month : ℕ) {r : Claim} {db' : Db}
      → move_settlement_month caller k month db ≡ ok (r, db')
      → FourEyes r
  unfolding FourEyes Other EachFourEyes
  move_settlement_month-FourEyes month {r} h =
      let (row, e, _, s, same, w) = move_settlement_month_writes caller k month db h in
      let (a, by, ne) = (all k row e).0 (inr s) in
      let (b, by', ne') = (all k row e).1 s in
      (λ _. (a, ground arith, ground arith), λ s. (b, ground arith, ground arith))

  unschedule-FourEyes : {r : Claim} {db' : Db} → unschedule caller k db ≡ ok (r, db') → FourEyes r
  unfolding FourEyes Other EachFourEyes
  unschedule-FourEyes {r} h =
      let (row, e, _, s, _, same, w) = unschedule_writes caller k db h in
      let (a, by, ne) = (all k row e).0 (inr s) in
      (λ _. (a, ground arith, ground arith), λ s. absurd (ground arith))

  withdraw-FourEyes : {r : Claim} {db' : Db} → withdraw caller k db ≡ ok (r, db') → FourEyes r
  unfolding FourEyes Other
  withdraw-FourEyes {r} h =
      let (row, e, _, s, same, w) = withdraw_writes caller k db h in
      (λ t. absurd (ground arith), λ t. absurd (ground arith))

submit-FourEyes : (p : ClaimCreate) (who : ℕ) → FourEyes (new_claim p who)
unfolding FourEyes
submit-FourEyes p who = (λ t. absurd (ground arith), λ t. absurd (ground arith))

step-EachFourEyes : {db db' : Db} → Step db db' → EachFourEyes db → EachFourEyes db'
unfolding EachFourEyes
step-EachFourEyes {db} (Step.submits caller p k _ h) all =
    let (same, w) = submit_writes caller p k db h in
    write-EachFourEyes w (subst FourEyes (sym same) (submit-FourEyes p caller.employee_id)) all
step-EachFourEyes {db} (Step.manager_decides caller k p now h) all =
    let (row, e, other, _, s, same, w) = manager_decide_writes caller k p now db h in
    write-EachFourEyes w (manager_decide-FourEyes caller k db all p now h) all
step-EachFourEyes {db} (Step.hr_decides caller k p now h) all =
    let (row, e, _, other, s, _, same, w) = hr_decide_writes caller k p now db h in
    write-EachFourEyes w (hr_decide-FourEyes caller k db all p now h) all
step-EachFourEyes {db} (Step.moves caller k month {r} {db'} h) all =
    let (row, e, _, s, same, w) = move_settlement_month_writes caller k month db h in
    elim w [
      | inl (_, still) ↦ subst EachFourEyes (sym still) all
      | inr (_, _, w') ↦
          write-EachFourEyes w' (move_settlement_month-FourEyes caller k db all month h) all
    ]
step-EachFourEyes {db} (Step.unschedules caller k h) all =
    let (row, e, _, s, _, same, w) = unschedule_writes caller k db h in
    write-EachFourEyes w (unschedule-FourEyes caller k db all h) all
step-EachFourEyes {db} (Step.withdraws caller k h) all =
    let (row, e, _, s, same, w) = withdraw_writes caller k db h in
    write-EachFourEyes w (withdraw-FourEyes caller k db all h) all
step-EachFourEyes (Step.releases month) all = all
step-EachFourEyes (Step.staffs es) all = all

Run-EachFourEyes : {db db' : Db} → db.claims ≡ [] → Run db db' → EachFourEyes db'
unfolding EachFourEyes
Run-EachFourEyes none_yet Run.done k row e = absurd (ground arith)
Run-EachFourEyes none_yet (Run.next run step) k row e =
    step-EachFourEyes step (Run-EachFourEyes none_yet run) k row e

-- Whatever happened from a state without claims: a claim that stands manager-approved or approved
-- was passed at the manager's step by somebody other than the claimant, and one that stands
-- approved also at the final step.
pub Run-FourEyes :
    {db db' : Db} (k : ℕ) {row : Claim}
    → db.claims ≡ []
    → Run db db'
    → lookup k db'.claims ≡ some row
    → FourEyes row
unfolding EachFourEyes
Run-FourEyes k none_yet run e = Run-EachFourEyes none_yet run k _ e
