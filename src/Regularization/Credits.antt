-- ===== src/Regularization/Credits.antt =====
-- The monthly credits, and one request per day: app/services/regularization_service.py.
use avora_be.Prelude.{
  ℕ, ◌≤◌, ◌<◌, ◌≡◌, ◌≢◌, ◌⊎◌, inl, inr, subst, sym, ap, ◌∙◌, true, false, ◌&&◌, none, some, [],
  arith, ◌==◌,
}
use avora_be.Prelude.Dict.{lookup, insert, any_rows-lookup, lookup-insert_cases}
use avora_be.Prelude.Service.{ok}
use avora_be.Auth.{CurrentUser}
use avora_be.Regularization.{
  Db, Regularization, RegularizationCreate, RegularizationReview, request, review, spends_credit,
  count_approved_in_month, month_of, is_active,
}
use avora_be.Regularization.Counting.{one_if, count_rows-insert_old, count_rows-insert_new}
use avora_be.Regularization.Writes.{Wrote, granted, reviewed, request_writes, review_writes}
use avora_be.Regularization.History.{Step, Run}

-- Nobody has more approved fixes in a month than the limit, nor does the policy grant more.
abbrev EachWithin : ℕ → Db → Type 0
EachWithin limit db =
    (granted db ≤ limit) × ((who month : ℕ) → count_approved_in_month who month db.regs ≤ limit)

-- Only an approval in that month, of that employee, adds to the count.
reviewed_spends :
    (caller : CurrentUser) (p : RegularizationReview) (reg : Regularization) (who month : ℕ)
    → (spends_credit who month (reviewed caller p reg) ≡ false)
      ⊎ ((p.approve ≡ true) × (reg.employee_id ≡ who) × (month_of reg.day ≡ month))
reviewed_spends caller p reg who month = ground arith

-- The count after a review, of everybody and every month.
count-reviewed :
    (caller : CurrentUser) (p : RegularizationReview) (k : ℕ) (reg : Regularization) (db : Db)
    (limit who month : ℕ)
    → lookup k db.regs ≡ some reg
    → (p.approve ≡ true
        → count_approved_in_month reg.employee_id (month_of reg.day) db.regs < limit)
    → count_approved_in_month who month db.regs ≤ limit
    → count_approved_in_month who month (insert k (reviewed caller p reg) db.regs) ≤ limit
count-reviewed caller p k reg db limit who month e below each =
    let test = spends_credit who month in
    let moved = count_rows-insert_old test k (reviewed caller p reg) db.regs e in
    elim (reviewed_spends caller p reg who month) [
      | inl no_credit ↦ ground (arith, moved, no_credit)
      | inr (granting, is_who, is_month) ↦
          let room : count_approved_in_month who month db.regs < limit =
            subst (λ m. count_approved_in_month who m db.regs < limit) is_month
              (subst (λ w. count_approved_in_month w (month_of reg.day) db.regs < limit) is_who
                (below granting)) in
          let at_most : one_if (test (reviewed caller p reg)) ≤ 1 = ground arith in
          omega (arith, moved, room, at_most)
    ]

module _ (limit : ℕ) where
  request-EachWithin :
      (caller : CurrentUser) (p : RegularizationCreate) (k : ℕ) (db : Db) {r : Regularization}
      {db' : Db}
      → lookup k db.regs ≡ none
      → request caller p k db ≡ ok (r, db')
      → EachWithin limit db
      → EachWithin limit db'
  request-EachWithin caller p k db {r} {db'} fresh h (within, each) =
      let (_, same, w) = request_writes caller p k db h in
      (
        omega (arith, w.credits),
        λ who month. ground (
          arith,
          each who month,
          w.regs,
          count_rows-insert_new (spends_credit who month) k r db.regs,
        ),
      )

  review-EachWithin :
      (caller : CurrentUser) (k : ℕ) (p : RegularizationReview) (db : Db) {r : Regularization}
      {db' : Db}
      → review caller k p db ≡ ok (r, db')
      → EachWithin limit db
      → EachWithin limit db'
  review-EachWithin caller k p db {r} {db'} h (within, each) =
      let (reg, e, _, _, _, s, below, same, w) = review_writes caller k p db h in
      (
        omega (arith, w.credits),
        λ who month.
            subst (λ d. count_approved_in_month who month d ≤ limit)
              (sym (w.regs ∙ ap (λ x. insert k x db.regs) same))
              (count-reviewed caller p k reg db limit who month e
                (λ granting. omega (arith, below granting)) (each who month)),
      )

  Run-EachWithin :
      {db db' : Db} → db.regs ≡ [] → granted db ≤ limit → Run limit db db' → EachWithin limit db'
  Run-EachWithin none_yet within Run.done = (within, λ who month. ground arith)
  Run-EachWithin none_yet within (Run.next {db'} run (Step.requests caller p k fresh h)) =
      request-EachWithin caller p k db' fresh h (Run-EachWithin none_yet within run)
  Run-EachWithin none_yet within (Run.next {db'} run (Step.reviews caller k p h)) =
      review-EachWithin caller k p db' h (Run-EachWithin none_yet within run)
  Run-EachWithin none_yet within (Run.next run (Step.policies p le)) =
      (le, (Run-EachWithin none_yet within run).1)
  Run-EachWithin none_yet within (Run.next run (Step.staffs es)) =
      Run-EachWithin none_yet within run

-- Whatever was requested and reviewed since there were no requests, under policies that grant no
-- more than `limit` credits a month: nobody has more than `limit` approved fixes in any month.
pub approved_at_most :
    (limit who month : ℕ) {db db' : Db}
    → db.regs ≡ []
    → granted db ≤ limit
    → Run limit db db'
    → count_approved_in_month who month db'.regs ≤ limit
approved_at_most limit who month none_yet within run =
    (Run-EachWithin limit none_yet within run).1 who month

-- One pending or approved request for a day of an employee.
abbrev OneActive : Db → Type 0
OneActive db =
    (j k : ℕ) (r s : Regularization)
    → lookup j db.regs ≡ some r
    → lookup k db.regs ≡ some s
    → is_active r.status ≡ true
    → is_active s.status ≡ true
    → r.employee_id ≡ s.employee_id
    → r.day ≡ s.day
    → j ≡ k

-- A row that meets no other active one may be written.
write-OneActive :
    (k : ℕ) (written : Regularization) {db db' : Db}
    → Wrote k written db db'
    → ((j : ℕ) (s : Regularization)
        → j ≢ k
        → lookup j db.regs ≡ some s
        → is_active s.status ≡ true
        → is_active written.status ≡ true
        → s.employee_id ≡ written.employee_id
        → s.day ≢ written.day)
    → OneActive db
    → OneActive db'
write-OneActive k written {db} w alone one i j r s at at' ra sa who day =
    let found = λ (x : ℕ) (v : Regularization) (e : lookup x _ ≡ some v).
      lookup-insert_cases x k written db.regs (subst (λ d. lookup x d ≡ some v) w.regs e) in
    elim (found i r at) [
      | inl (same, new) ↦ elim (found j s at') [
        | inl (same', _) ↦ same ∙ sym same'
        | inr (other, old) ↦
            absurd (alone j s other old sa (ground arith) (ground arith) (ground arith))
      ]
      | inr (other, old) ↦ elim (found j s at') [
        | inl (same', new) ↦
            absurd (alone i r other old ra (ground arith) (ground arith) (ground arith))
        | inr (other', old') ↦ one i j r s old old' ra sa who day
      ]
    ]

request-OneActive :
    (caller : CurrentUser) (p : RegularizationCreate) (k : ℕ) (db : Db) {written : Regularization}
    {db' : Db}
    → request caller p k db ≡ ok (written, db')
    → OneActive db
    → OneActive db'
request-OneActive caller p k db {written} {db'} h =
    let (free, same, w) = request_writes caller p k db h in
    write-OneActive k written w λ j s other at sa _ who day.
      let taken =
        any_rows-lookup
          (λ _ v. v.employee_id == caller.employee_id && (v.day == p.day && is_active v.status)) j
          db.regs free at in
      absurd (ground arith)

review-OneActive :
    (caller : CurrentUser) (k : ℕ) (p : RegularizationReview) (db : Db) {written : Regularization}
    {db' : Db}
    → review caller k p db ≡ ok (written, db')
    → OneActive db
    → OneActive db'
review-OneActive caller k p db {written} {db'} h one =
    let (reg, e, _, _, _, s, _, same, w) = review_writes caller k p db h in
    write-OneActive k written w
      (λ j t other at ta _ who day.
        other (one j k t reg at e ta (ground arith) (ground arith) (ground arith)))
      one

Run-OneActive : {limit : ℕ} {db db' : Db} → db.regs ≡ [] → Run limit db db' → OneActive db'
Run-OneActive none_yet Run.done = λ j k r s at. absurd (ground arith)
Run-OneActive none_yet (Run.next {db'} run (Step.requests caller p k fresh h)) =
    request-OneActive caller p k db' h (Run-OneActive none_yet run)
Run-OneActive none_yet (Run.next {db'} run (Step.reviews caller k p h)) =
    review-OneActive caller k p db' h (Run-OneActive none_yet run)
Run-OneActive none_yet (Run.next run (Step.policies p le)) = Run-OneActive none_yet run
Run-OneActive none_yet (Run.next run (Step.staffs es)) = Run-OneActive none_yet run

-- Whatever was requested and reviewed since there were no requests: two requests of one employee
-- under different identifiers that are both pending or approved are for different days.
pub one_active_per_day :
    (j k : ℕ) (r s : Regularization) {limit : ℕ} {db db' : Db}
    → db.regs ≡ []
    → Run limit db db'
    → lookup j db'.regs ≡ some r
    → lookup k db'.regs ≡ some s
    → is_active r.status ≡ true
    → is_active s.status ≡ true
    → r.employee_id ≡ s.employee_id
    → j ≢ k
    → r.day ≢ s.day
one_active_per_day j k r s none_yet run at at' ra sa who apart day =
    apart (Run-OneActive none_yet run j k r s at at' ra sa who day)
