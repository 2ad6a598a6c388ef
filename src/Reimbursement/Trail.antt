-- ===== src/Reimbursement/Trail.antt =====
-- The audit trail of app/services/reimbursement_service.py.
use mathlib.Core.List.{append-nil, append_assoc}
use avora_be.Prelude.{
  ℕ, ◌≡◌, refl, sym, ◌∙◌, ap, Bool, false, List, [], ◌∷◌, ◌++◌, inl, inr, arith, ◌==◌, any,
}
use avora_be.Prelude.Dict.{lookup, lookup-insert_other}
use avora_be.Auth.{CurrentUser}
use avora_be.Notice.{AuditEntry}
use avora_be.Reimbursement.{Db, Claim, Action}
use avora_be.Reimbursement.Writes.{
  Wrote, submit_writes, manager_decide_writes, hr_decide_writes, move_settlement_month_writes,
  unschedule_writes, withdraw_writes,
}
use avora_be.Reimbursement.History.{Step, Run}

abbrev about : ℕ → AuditEntry Action → Bool
about k e = e.target == k

-- The log only grew, by entries that name every claim that is not as it was.
pub record Audited (db db' : Db) : Type 0 where
  pub entries : List (AuditEntry Action)
  pub grew : db'.audit ≡ db.audit ++ entries
  pub names : (k : ℕ) → any (about k) entries ≡ false → lookup k db'.claims ≡ lookup k db.claims

unchanged : {db db' : Db} → db'.audit ≡ db.audit → db'.claims ≡ db.claims → Audited db db'
unchanged {db} {db'} a c = record {
  entries = [];
  grew = a ∙ sym (append-nil db.audit);
  names = λ k _. ap (lookup k) c;
}

write-Audited :
    {caller : CurrentUser} {k : ℕ} {r : Claim} {db db' : Db}
    → Wrote caller k r db db'
    → Audited db db'
write-Audited {k} {r} {db} w = record {
  entries = w.entry ∷ [];
  grew = w.audit;
  names = λ j silent.
      ap (lookup j) w.claims
      ∙ lookup-insert_other r db.claims (λ jk. absurd (ground (arith, w.target)));
}

step-Audited : {db db' : Db} → Step db db' → Audited db db'
step-Audited {db} (Step.submits caller p k fresh h) =
    let (same, w) = submit_writes caller p k db h in write-Audited w
step-Audited {db} (Step.manager_decides caller k p now h) =
    let (row, e, other, _, s, same, w) = manager_decide_writes caller k p now db h in
    write-Audited w
step-Audited {db} (Step.hr_decides caller k p now h) =
    let (row, e, _, other, s, _, same, w) = hr_decide_writes caller k p now db h in write-Audited w
step-Audited {db} {db'} (Step.moves caller k month h) =
    let (row, e, _, s, same, w) = move_settlement_month_writes caller k month db h in
    elim w [
      | inl (_, still) ↦ unchanged (ap (λ d. d.audit) still) (ap (λ d. d.claims) still)
      | inr (_, _, w') ↦ write-Audited w'
    ]
step-Audited {db} (Step.unschedules caller k h) =
    let (row, e, _, s, _, same, w) = unschedule_writes caller k db h in write-Audited w
step-Audited {db} (Step.withdraws caller k h) =
    let (row, e, _, s, same, w) = withdraw_writes caller k db h in write-Audited w
step-Audited (Step.releases month) = unchanged refl refl
step-Audited (Step.staffs es) = unchanged refl refl

any-append_false :
    (p : AuditEntry Action → Bool) (xs ys : List (AuditEntry Action))
    → any p (xs ++ ys) ≡ false
    → (any p xs ≡ false) × (any p ys ≡ false)
any-append_false p [] ys h = (refl, h)
any-append_false p (x ∷ xs) ys h = ground (arith, any-append_false p xs ys)

-- In every history the audit log only grew at its end, and a claim that differs from what it was
-- at the start (created, decided, moved, unscheduled or withdrawn) is named by a new entry.
pub Run-Audited : {db db' : Db} → Run db db' → Audited db db'
Run-Audited Run.done = unchanged refl refl
Run-Audited {db} (Run.next run step) =
    let before = Run-Audited run in
    let after = step-Audited step in
    record {
      entries = before.entries ++ after.entries;
      grew =
          after.grew
          ∙ ap (λ l. l ++ after.entries) before.grew
          ∙ append_assoc db.audit before.entries after.entries;
      names = λ k silent.
          let (early, late) = any-append_false (about k) before.entries after.entries silent in
          after.names k late ∙ before.names k early;
    }
