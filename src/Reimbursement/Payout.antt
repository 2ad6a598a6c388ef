-- ===== src/Reimbursement/Payout.antt =====
-- Claims and released payrolls, app/services/reimbursement_service.py: what was paid stays as it
-- was paid, and nothing is scheduled into a month whose payslips are out.
use avora_be.Prelude.{ℕ, ◌≡◌, subst, sym, true, false, some, ◌⊎◌, inl, inr, arith}
use avora_be.Prelude.Dict.{lookup, lookup-insert_other}
use avora_be.Auth.{CurrentUser}
use avora_be.Reimbursement.{Db, Claim, ClaimStatus, is_released}
use avora_be.Reimbursement.Writes.{
  Wrote, submit_writes, manager_decide_writes, hr_decide_writes, move_settlement_month_writes,
  unschedule_writes, withdraw_writes,
}
use avora_be.Reimbursement.History.{Step, Run, written_or_old}

-- The claim stands approved in a month whose payslips are out.
unfoldable pub Paid : ℕ → Claim → Db → Type 0
Paid k row db =
    (lookup k db.claims ≡ some row)
    × (row.status ≡ ClaimStatus.approved)
    × (is_released row.period_month db ≡ true)

-- The row was there before the step, or the month in it was still open.
unfoldable pub OpenOrOld : ℕ → Claim → Db → Type 0
OpenOrOld k row db = (lookup k db.claims ≡ some row) ⊎ (is_released row.period_month db ≡ false)

module _ (k : ℕ) (row : Claim) where
  -- A write to another row, or to a row that was not paid.
  write-Paid :
      {caller : CurrentUser} {j : ℕ} {r : Claim} {db db' : Db}
      → Wrote caller j r db db'
      → (k ≡ j → ⊥)
      → Paid k row db
      → Paid k row db'
  unfolding Paid
  write-Paid {j} {r} {db} {db'} w ne (at, s, out) =
      (ground (arith, w.claims, lookup-insert_other r db.claims ne), s, ground (arith, w.released))

  step-Paid : {db db' : Db} → Step db db' → Paid k row db → Paid k row db'
  unfolding Paid
  step-Paid {db} (Step.submits caller p j fresh h) (at, s, out) =
      let (same, w) = submit_writes caller p j db h in
      write-Paid w (λ kj. absurd (ground arith)) (at, s, out)
  step-Paid {db} (Step.manager_decides caller j p now h) (at, s, out) =
      let (old, e, other, _, t, same, w) = manager_decide_writes caller j p now db h in
      write-Paid w (λ kj. absurd (ground arith)) (at, s, out)
  step-Paid {db} (Step.hr_decides caller j p now h) (at, s, out) =
      let (old, e, _, other, t, _, same, w) = hr_decide_writes caller j p now db h in
      write-Paid w (λ kj. absurd (ground arith)) (at, s, out)
  step-Paid {db} (Step.moves caller j month h) (at, s, out) =
      let (old, e, _, t, same, w) = move_settlement_month_writes caller j month db h in
      elim w [
        | inl (_, still) ↦ subst (Paid k row) (sym still) (at, s, out)
        | inr (open_before, _, w') ↦ write-Paid w' (λ kj. absurd (ground arith)) (at, s, out)
      ]
  step-Paid {db} (Step.unschedules caller j h) (at, s, out) =
      let (old, e, _, t, open_before, same, w) = unschedule_writes caller j db h in
      write-Paid w (λ kj. absurd (ground arith)) (at, s, out)
  step-Paid {db} (Step.withdraws caller j h) (at, s, out) =
      let (old, e, _, t, same, w) = withdraw_writes caller j db h in
      write-Paid w (λ kj. absurd (ground arith)) (at, s, out)
  step-Paid (Step.releases month) (at, s, out) = (at, s, ground arith)
  step-Paid (Step.staffs es) paid = paid

  -- A claim that stands approved in a released month is never changed again, by no service call, no
  -- release and no change of the staff records, in any order; and the month stays released.
  pub Run-Paid : {db db' : Db} → Run db db' → Paid k row db → Paid k row db'
  Run-Paid Run.done paid = paid
  Run-Paid (Run.next run step) paid = step-Paid step (Run-Paid run paid)

  write-OpenOrOld :
      {caller : CurrentUser} {j : ℕ} {r : Claim} {db db' : Db}
      → Wrote caller j r db db'
      → (r ≡ row → is_released r.period_month db ≡ false)
      → lookup k db'.claims ≡ some row
      → OpenOrOld k row db
  unfolding OpenOrOld
  write-OpenOrOld {db} w still_open at = elim (written_or_old w k at) [
    | inl (_, new) ↦ inr (subst (λ c. is_released c.period_month db ≡ false) new (still_open new))
    | inr (_, old) ↦ inl old
  ]

  -- Whenever a step leaves a claim approved, either the very same row stood there before the step, or
  -- the month that the claim is now to be paid in was not released at the step.
  pub approved_month_open :
      {db db' : Db}
      → Step db db'
      → lookup k db'.claims ≡ some row
      → row.status ≡ ClaimStatus.approved
      → OpenOrOld k row db
  unfolding OpenOrOld
  approved_month_open {db} (Step.submits caller p j fresh h) at s =
      let (same, w) = submit_writes caller p j db h in
      write-OpenOrOld w (λ new. absurd (ground arith)) at
  approved_month_open {db} (Step.manager_decides caller j p now h) at s =
      let (old, e, other, _, t, same, w) = manager_decide_writes caller j p now db h in
      write-OpenOrOld w (λ new. absurd (ground arith)) at
  approved_month_open {db} (Step.hr_decides caller j p now h) at s =
      let (old, e, _, other, t, still_open, same, w) = hr_decide_writes caller j p now db h in
      write-OpenOrOld w (λ new. still_open (ground arith)) at
  approved_month_open {db} (Step.moves caller j month h) at s =
      let (old, e, _, t, same, w) = move_settlement_month_writes caller j month db h in
      elim w [
        | inl (_, still) ↦ inl (subst (λ d. lookup k d.claims ≡ some row) still at)
        | inr (_, open_after, w') ↦ write-OpenOrOld w' (λ new. ground arith) at
      ]
  approved_month_open {db} (Step.unschedules caller j h) at s =
      let (old, e, _, t, _, same, w) = unschedule_writes caller j db h in
      write-OpenOrOld w (λ new. absurd (ground arith)) at
  approved_month_open {db} (Step.withdraws caller j h) at s =
      let (old, e, _, t, same, w) = withdraw_writes caller j db h in
      write-OpenOrOld w (λ new. absurd (ground arith)) at
  approved_month_open (Step.releases month) at s = inl at
  approved_month_open (Step.staffs es) at s = inl at
