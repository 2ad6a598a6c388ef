-- ===== src/Probation/Outcome.antt =====
-- The window that an outcome leaves: `_apply_outcome` of app/services/probation_service.py.
use mathlib.Core.Option.{get_or}
use avora_be.Prelude.{
  ℕ, ◌≡◌, ◌≤◌, inl, inr, Bool, true, false, not, ◌&&◌, Option, none, some, arith, ap, subst, sym,
  ◌∙◌, Option-cases, Bool-cases, ltb, if◌then◌else◌,
}
use avora_be.Prelude.Dict.{insert}
use avora_be.Prelude.Service.{
  AppError, ok, return, raise_if, or_raise, bind_ok, ok_inj, raise_if_ok, or_raise_ok,
}
use avora_be.Calendar.{Date, date_leb, date_ltb}
use avora_be.Staff.{Employee}
use avora_be.Tenure.{probation_end, months_to_reach, anniversaries_reached}
use avora_be.Probation.{Db, Decision, is_terminated}
use avora_be.Probation.Desk.{
  DecisionCreate, own_months, own_or_default, default_probation_months, probation_months_of,
  is_extended, was_extended, first_end, end_before_extension, at_least_one, confirm, extend,
  new_window, apply_outcome, max_probation_months, extended_from,
}

-- The months of the policy, which are six before there is one.
abbrev pub policy_months : Db → ℕ
policy_months db = get_or db.default_months 6

-- The months of a probation: one's own, or those of the policy.
abbrev pub in_force : Db → Employee → ℕ
in_force db e = get_or (own_months e.probation_months) (policy_months db)

-- Nothing was written but the first policy.
pub record Reads (db db' : Db) : Type 0 where
  pub items : db'.items ≡ db.items
  pub decisions : db'.decisions ≡ db.decisions
  pub employees : db'.employees ≡ db.employees
  pub months : policy_months db' ≡ policy_months db

default_probation_months-Reads :
    (db : Db) {n : ℕ} {db' : Db}
    → default_probation_months db ≡ ok (n, db')
    → (n ≡ policy_months db) × Reads db db'
unfolding default_probation_months
default_probation_months-Reads db {n} {db'} h = elim (Option-cases db.default_months) [
  | inl e ↦ (
    ground arith,
    record {
      items = ground arith;
      decisions = ground arith;
      employees = ground arith;
      months = ground arith;
    },
  )
  | inr (m, e) ↦ (
    ground arith,
    record {
      items = ground arith;
      decisions = ground arith;
      employees = ground arith;
      months = ground arith;
    },
  )
]

same-Reads : {db db' : Db} → db ≡ db' → Reads db db'
same-Reads e = record {
  items = ap (λ x. x.items) (sym e);
  decisions = ap (λ x. x.decisions) (sym e);
  employees = ap (λ x. x.employees) (sym e);
  months = ap policy_months (sym e);
}

own_or_default-Reads :
    (own : Option ℕ) (db : Db) {n : ℕ} {db' : Db}
    → own_or_default own db ≡ ok (n, db')
    → (n ≡ get_or own (policy_months db)) × Reads db db'
own_or_default-Reads none db h = default_probation_months-Reads db h
own_or_default-Reads (some m) db h = let (same, there) = ok_inj h in (sym same, same-Reads there)

pub probation_months_of-Reads :
    (e : Employee) (db : Db) {n : ℕ} {db' : Db}
    → probation_months_of e db ≡ ok (n, db')
    → (n ≡ in_force db e) × Reads db db'
unfolding probation_months_of
probation_months_of-Reads e db h = own_or_default-Reads (own_months e.probation_months) db h

first_end-Reads :
    (e : Employee) (hired first : Option Date) (db : Db) {o : Option Date} {db' : Db}
    → first_end e hired first db ≡ ok (o, db')
    → Reads db db'
first_end-Reads e none first db h = same-Reads (ok_inj h).1
first_end-Reads e (some hired) (some day) db h = same-Reads (ok_inj h).1
first_end-Reads e (some hired) none db h =
    let (n, db1, k, rest) =
      bind_ok (probation_months_of e) (λ months. return (some (probation_end hired months))) db h in
    subst (Reads db) (ok_inj rest).1 (probation_months_of-Reads e db k).1

pub end_before_extension-Reads :
    (e : Employee) (previous : Option Decision) (p : DecisionCreate) (db : Db) {o : Option Date}
    {db' : Db}
    → end_before_extension e previous p db ≡ ok (o, db')
    → Reads db db'
unfolding end_before_extension
end_before_extension-Reads e previous p db h = elim (Bool-cases (is_extended p.outcome)) [
  | inl yes_ ↦ first_end-Reads e e.hire_date (extended_from previous) db (rw yes_ at h)
  | inr no_ ↦ same-Reads (ok_inj (rw no_ at h)).1
]

-- The months of one's own probation, written on the row that was read.
abbrev pub with_months : ℕ → Employee → ℕ → Db → Db
with_months who e n db = record db {
  employees = insert who (record e { probation_months = some n }) db.employees;
}

module _ (who : ℕ) (e : Employee) (hired day : Date) (months : ℕ) (db : Db) where
  -- A confirmation cuts a window that still runs on the day.
  pub confirm_ok :
      {d : Date} {db' : Db}
      → confirm who e hired day months db ≡ ok (d, db')
      → (d ≡ day)
        × (db' ≡ (
            if date_ltb day (probation_end hired months)
            then with_months who e (at_least_one (anniversaries_reached hired day)) db
            else db))
  unfolding confirm
  confirm_ok h = elim (Bool-cases (date_ltb day (probation_end hired months))) [
    | inl early ↦ let (same, there) = ok_inj (rw early at h) in rw early (sym same, sym there)
    | inr late ↦ let (same, there) = ok_inj (rw late at h) in rw late (sym same, sym there)
  ]

  abbrev pub Extended : Option Decision → Date → Date → Db → Type 0
  Extended previous today d db' =
      (d ≡ probation_end hired (months_to_reach hired day))
      × (date_leb d today ≡ false)
      × (was_extended previous ≡ false → date_leb d (probation_end hired months) ≡ false)
      × (months_to_reach hired day ≤ max_probation_months)
      × (db' ≡ with_months who e (months_to_reach hired day) db)

  pub extend_ok :
      (previous : Option Decision) (today : Date) {d : Date} {db' : Db}
      → extend who e previous hired day months today db ≡ ok (d, db')
      → Extended previous today d db'
  unfolding extend
  extend_ok previous today {d} {db'} h =
      let reached = months_to_reach hired day in
      let new_end = probation_end hired reached in
      let (u, db1, f, h1) =
        bind_ok (raise_if (date_leb new_end today) AppError.validation_error) _ db h in
      let (ahead, same) = raise_if_ok (date_leb new_end today) AppError.validation_error db f in
      let shorter = not (was_extended previous) && date_leb new_end (probation_end hired months) in
      let (v, db2, g, h2) = bind_ok (raise_if shorter AppError.validation_error) _ db1 h1 in
      let (later, same1) = raise_if_ok shorter AppError.validation_error db1 g in
      let over = ltb max_probation_months reached in
      let (w, db3, k, h3) = bind_ok (raise_if over AppError.validation_error) _ db2 h2 in
      let (within, same2) = raise_if_ok over AppError.validation_error db2 k in
      let (date_is, there) = ok_inj h3 in
      let whole = same ∙ same1 ∙ same2 in
      (
        sym date_is,
        subst (λ z. date_leb z today ≡ false) date_is ahead,
        (λ fresh.
            subst (λ z. date_leb z (probation_end hired months) ≡ false) date_is
              (ground (arith, later, fresh))),
        ground (arith, within),
        sym (ap (with_months who e reached) whole ∙ there),
      )

-- What an outcome other than a termination left: the window by the joining date and the months.
pub new_window_ok :
    (who : ℕ) (e : Employee) (previous : Option Decision) (p : DecisionCreate) (today : Date)
    (db : Db) {d : Date} {db' : Db}
    → new_window who e previous p today db ≡ ok (d, db')
    → (hired : Date) × (db1 : Db) × (e.hire_date ≡ some hired)
      × Reads db db1
      × ((is_extended p.outcome ≡ true
            → Extended who e hired p.effective_date (in_force db e) db1 previous today d db')
          × (is_extended p.outcome ≡ false
              → confirm who e hired p.effective_date (in_force db e) db1 ≡ ok (d, db')))
unfolding new_window
new_window_ok who e previous p today db {d} {db'} h =
    let (hired, db0, f, h1) = bind_ok (or_raise e.hire_date AppError.validation_error) _ db h in
    let (known, same) = or_raise_ok e.hire_date AppError.validation_error db f in
    let (n, db1, g, h2) = bind_ok (probation_months_of e) _ db0 h1 in
    let (n_is, reads) =
      probation_months_of-Reads e db
        (subst (λ z. probation_months_of e z ≡ ok (n, db1)) (sym same) g) in
    (
      hired,
      db1,
      known,
      reads,
      (
        (λ longer.
            extend_ok who e hired p.effective_date (in_force db e) db1 previous today
              (rw (sym n_is) (rw longer at h2))),
        (λ shorter. rw (sym n_is) (rw shorter at h2)),
      ),
    )

-- The checklist and the decisions are as before.
pub record KeepsReview (db db' : Db) : Type 0 where
  pub items : db'.items ≡ db.items
  pub decisions : db'.decisions ≡ db.decisions

kept_by :
    {db db1 db' : Db}
    → Reads db db1
    → db'.items ≡ db1.items
    → db'.decisions ≡ db1.decisions
    → KeepsReview db db'
kept_by r i d = record { items = i ∙ r.items; decisions = d ∙ r.decisions }

confirm_keeps :
    (who : ℕ) (e : Employee) (cut : Bool) (n : ℕ) (db db' : Db)
    → db' ≡ (if cut then with_months who e n db else db)
    → (db'.items ≡ db.items) × (db'.decisions ≡ db.decisions)
confirm_keeps who e true n db db' h = (ap (λ x. x.items) h, ap (λ x. x.decisions) h)
confirm_keeps who e false n db db' h = (ap (λ x. x.items) h, ap (λ x. x.decisions) h)

new_window-KeepsReview :
    (who : ℕ) (e : Employee) (previous : Option Decision) (p : DecisionCreate) (today : Date)
    (db : Db) {d : Date} {db' : Db}
    → new_window who e previous p today db ≡ ok (d, db')
    → KeepsReview db db'
new_window-KeepsReview who e previous p today db {d} {db'} h =
    let (hired, db1, joined, reads, cases) = new_window_ok who e previous p today db h in
    elim (Bool-cases (is_extended p.outcome)) [
      | inl longer ↦
          let (_, _, _, _, state) = cases.0 longer in
          kept_by reads (ap (λ x. x.items) state) (ap (λ x. x.decisions) state)
      | inr shorter ↦
          let (_, state) =
            confirm_ok who e hired p.effective_date (in_force db e) db1 (cases.1 shorter) in
          let (i, d) =
            confirm_keeps who e (date_ltb p.effective_date (probation_end hired (in_force db e)))
              (at_least_one (anniversaries_reached hired p.effective_date)) db1 db' state in
          kept_by reads i d
    ]

pub apply_outcome-KeepsReview :
    (who : ℕ) (e : Employee) (previous : Option Decision) (p : DecisionCreate) (today : Date)
    (db : Db) {d : Date} {db' : Db}
    → apply_outcome who e previous p today db ≡ ok (d, db')
    → KeepsReview db db'
unfolding apply_outcome
apply_outcome-KeepsReview who e previous p today db h =
    elim (Bool-cases (is_terminated p.outcome)) [
      | inl over ↦
          let there = (ok_inj (rw over at h)).1 in
          record {
            items = ap (λ x. x.items) (sym there);
            decisions = ap (λ x. x.decisions) (sym there);
          }
      | inr goes ↦ new_window-KeepsReview who e previous p today db (rw goes at h)
    ]
