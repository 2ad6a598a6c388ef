-- ===== src/Leave/Bookings.antt =====
-- No double booking: app/services/leave_service.py, `_enforce_no_overlap` at approval.
use avora_be.Prelude.{
  ℕ, ◌≡◌, ◌≢◌, refl, sym, ◌∙◌, subst, Bool, true, false, some, [], inl, inr, arith, if◌then◌else◌,
}
use avora_be.Prelude.Dict.{lookup, lookup-insert_cases}
use avora_be.Leave.{Leave, LeaveStatus, meets, clashes}
use avora_be.Leave.Desk.{Db, from_leave}
use avora_be.Leave.Clash.{clashes-sym, meets-sym, any_clash_sound}
use avora_be.Leave.Writes.{
  Wrote, apply_writes, withdraw_writes, cancel_approved_writes, request_withdrawal_writes,
  decide_withdrawal_writes, decide_writes,
}
use avora_be.Leave.History.{Step, Run}

-- Two approved leaves of one person whose dates meet are the two halves of a day.
unfoldable pub Apart : Leave → Leave → Type 0
Apart a b =
    a.employee_id ≡ b.employee_id
    → a.status ≡ LeaveStatus.approved
    → b.status ≡ LeaveStatus.approved
    → meets a b.start_date b.end_date ≡ true
    → clashes a b.leave_type b.half_day_period ≡ false

unfoldable pub NoDoubleBooking : Db → Type 0
NoDoubleBooking db =
    (i j : ℕ) (a b : Leave)
    → i ≢ j
    → lookup i db.leaves ≡ some a
    → lookup j db.leaves ≡ some b
    → Apart a b

Apart-sym : (a b : Leave) → Apart a b → Apart b a
unfolding Apart
Apart-sym a b apart e sb sa m = clashes-sym b a ∙ apart (sym e) sa sb (meets-sym a b ∙ m)

-- What a write has to show: the row written stands apart from every other row.
write-NoDoubleBooking :
    {k : ℕ} {r : Leave} {db db' : Db}
    → Wrote k r db db'
    → ((j : ℕ) (b : Leave) → k ≢ j → lookup j db.leaves ≡ some b → Apart r b)
    → NoDoubleBooking db
    → NoDoubleBooking db'
unfolding NoDoubleBooking
write-NoDoubleBooking {k} {r} {db} {db'} w new all i j a b ne ea eb =
    let ca = lookup-insert_cases i k r db.leaves (subst (λ d. lookup i d ≡ some a) w.leaves ea) in
    let cb = lookup-insert_cases j k r db.leaves (subst (λ d. lookup j d ≡ some b) w.leaves eb) in
    elim ca [
      | inl (ik, ra) ↦ elim cb [
        | inl (jk, _) ↦ absurd (ne (ik ∙ sym jk))
        | inr (jk, old) ↦ subst (λ x. Apart x b) ra (new j b (λ kj. jk (sym kj)) old)
      ]
      | inr (ik, old) ↦ elim cb [
        | inl (jk, rb) ↦ subst (λ x. Apart a x) rb (Apart-sym r a (new i a (λ ki. ik (sym ki)) old))
        | inr (jk, old') ↦ all i j a b ne old old'
      ]
    ]

-- A row that is not approved stands apart from all.
idle-Apart : (r b : Leave) → (r.status ≡ LeaveStatus.approved → ⊥) → Apart r b
unfolding Apart
idle-Apart r b idle e sa sb m = absurd (idle sa)

-- Granting a withdrawal cancels the leave, and declining it leaves the booking as it was.
answered :
    (granted : Bool) (row b : Leave)
    → Apart row b
    → Apart (record row { status = if granted then LeaveStatus.cancelled else row.status }) b
unfolding Apart
answered true row b apart e s sb m = absurd (ground arith)
answered false row b apart e s sb m = apart e s sb m

-- Approving keeps apart from what the overlap check saw, and rejecting books nothing.
approved-Apart :
    (granted : Bool) (row b : Leave)
    → (granted ≡ true
        → row.employee_id ≡ b.employee_id
        → b.status ≡ LeaveStatus.approved
        → meets row b.start_date b.end_date ≡ true
        → clashes row b.leave_type b.half_day_period ≡ false)
    → Apart
        (record row { status = if granted then LeaveStatus.approved else LeaveStatus.rejected })
        b
unfolding Apart
approved-Apart true row b free e s sb m = free refl e sb m
approved-Apart false row b free e s sb m = absurd (ground arith)

step-NoDoubleBooking : {db db' : Db} → Step db db' → NoDoubleBooking db → NoDoubleBooking db'
unfolding NoDoubleBooking Apart
step-NoDoubleBooking {db} (Step.applies caller p today k {r} fresh h) all =
    let (e, found, passed, same, w) = apply_writes caller p today k db h in
    write-NoDoubleBooking w (λ j b ne old. idle-Apart r b (λ s. absurd (ground arith))) all
step-NoDoubleBooking {db} (Step.withdraws caller k {r} h) all =
    let (row, at, owner, s, same, w) = withdraw_writes caller k db h in
    write-NoDoubleBooking w (λ j b ne old. idle-Apart r b (λ s. absurd (ground arith))) all
step-NoDoubleBooking {db} (Step.cancels caller k {r} h) all =
    let (row, at, seen, may, still_open, same, w) = cancel_approved_writes caller k db h in
    write-NoDoubleBooking w (λ j b ne old. idle-Apart r b (λ s. absurd (ground arith))) all
step-NoDoubleBooking {db} (Step.asks caller k why now h) all =
    let (row, at, may, still_open, same, w) = request_withdrawal_writes caller k why now db h in
    write-NoDoubleBooking w
      (λ j b ne old. subst (λ x. Apart x b) (sym same) (all k j row b ne at old)) all
step-NoDoubleBooking {db} (Step.answers caller k p now h) all =
    let (row, at, seen, may, still_open, same, w) = decide_withdrawal_writes caller k p now db h in
    write-NoDoubleBooking w
      (λ j b ne old.
        subst (λ x. Apart x b) (sym same) (answered p.approve row b (all k j row b ne at old)))
      all
step-NoDoubleBooking {db} (Step.decides caller k p today now h) all =
    let (row, at, seen, may, s, passed, same, w) = decide_writes caller k p today now db h in
    write-NoDoubleBooking w
      (λ j b ne old.
        subst (λ x. Apart x b) (sym same)
          (approved-Apart p.approve row b (λ approving e sb m.
            let (_, _, checks) = passed approving in
            clashes-sym row b
            ∙ any_clash_sound (from_leave row) row.employee_id k j true db.leaves checks.free
                (λ jk. ne (sym jk)) old (sym e) sb (sym (meets-sym row b) ∙ m))))
      all
step-NoDoubleBooking {db} (Step.others same keeps) all =
    subst
      (λ d. (i j : ℕ) (a b : Leave) → i ≢ j → lookup i d ≡ some a → lookup j d ≡ some b → Apart a b)
      (sym same) all

Run-NoDoubleBooking : {db db' : Db} → Run db db' → NoDoubleBooking db → NoDoubleBooking db'
Run-NoDoubleBooking Run.done all = all
Run-NoDoubleBooking (Run.next run step) all =
    step-NoDoubleBooking step (Run-NoDoubleBooking run all)

-- Whatever happened from a state without leaves: two approved leaves of one person on file under
-- different identifiers, whose dates meet, are half days in different halves.
pub never_double_booked :
    {db db' : Db} (i j : ℕ) {a b : Leave}
    → db.leaves ≡ []
    → Run db db'
    → i ≢ j
    → lookup i db'.leaves ≡ some a
    → lookup j db'.leaves ≡ some b
    → a.employee_id ≡ b.employee_id
    → a.status ≡ LeaveStatus.approved
    → b.status ≡ LeaveStatus.approved
    → meets a b.start_date b.end_date ≡ true
    → clashes a b.leave_type b.half_day_period ≡ false
unfolding NoDoubleBooking Apart
never_double_booked i j {a} {b} none_yet run ne ea eb =
    Run-NoDoubleBooking run (λ x y u v _ eu _. absurd (ground (arith, none_yet, eu))) i j a b ne ea
      eb
