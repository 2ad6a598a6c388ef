-- ===== src/Probation/Written.antt =====
-- The rows that an outcome writes, and the ends of their windows: `_apply_outcome` of
-- app/services/probation_service.py with app/core/tenure.py.
use mathlib.Core.Option.{get_or}
use avora_be.Prelude.{
  ℕ, zero, suc, ◌≡◌, ◌≤◌, ◌<◌, inl, inr, Bool, true, false, Option, some, arith, ap, subst, sym,
  ◌∙◌, refl, Bool-cases,
}
use avora_be.Prelude.Dict.{lookup, lookup-insert_same}
use avora_be.Prelude.Service.{ok}
use avora_be.Calendar.{Date, date, IsValid, to_ordinal, date_ltb, date_leb, month_length}
use avora_be.Calendar.Order.{date_ltb_iff}
use avora_be.Staff.{Employee}
use avora_be.Tenure.{probation_end, add_months, months_to_reach, anniversaries_reached}
use avora_be.Tenure.Months.{add_months-IsValid, add_months-Moved}
use avora_be.Tenure.Bands.{anniversaries_reached_iff, probation_end_lem}
use avora_be.Probation.{Db, Decision, is_terminated}
use avora_be.Probation.Desk.{
  DecisionCreate, is_extended, was_extended, own_months, sent, apply_outcome, new_window,
  at_least_one, confirm,
}
use avora_be.Probation.Outcome.{Extended, in_force, with_months, Reads, new_window_ok, confirm_ok}

-- No months on is the date itself.
add_months_zero :
    (start : Date) → IsValid start → to_ordinal (add_months start 0) ≡ to_ordinal start
add_months_zero start v =
    let d = add_months start 0 in
    let m = add_months-Moved start 0 v in
    let same_month : d.month ≡ start.month = omega (arith, m.index, m.month_in, v) in
    let same_year : d.year ≡ start.year = omega (arith, m.index, m.month_in, v) in
    let same_length =
      ap (month_length d.year) same_month ∙ ap (λ y. month_length y start.month) same_year in
    let same_day : d.day ≡ start.day = omega (arith, m.day_is, same_length, v) in
    ap (λ y. to_ordinal (date y d.month d.day)) same_year
    ∙ ap (λ n. to_ordinal (date start.year n d.day)) same_month
    ∙ ap (λ n. to_ordinal (date start.year start.month n)) same_day

pub effective_is :
    (p : DecisionCreate) (delivered : Bool) (now : ℕ) (d : Decision)
    → (sent p delivered now d).effective_date ≡ d.effective_date
effective_is p delivered now d = ground arith

-- What was recorded of an outcome: the date on file is that of the window that was written.
pub apply_outcome_window :
    (who : ℕ) (e : Employee) (previous : Option Decision) (p : DecisionCreate) (today : Date)
    (db : Db) {d : Date} {db' : Db}
    → is_terminated p.outcome ≡ false
    → apply_outcome who e previous p today db ≡ ok (d, db')
    → new_window who e previous p today db ≡ ok (d, db')
unfolding apply_outcome
apply_outcome_window who e previous p today db goes h = rw goes at h

-- The months in force of a row with months of its own.
pub in_force_own :
    (db : Db) (e : Employee) (n : ℕ)
    → 1 ≤ n
    → in_force db (record e { probation_months = some n }) ≡ n
in_force_own db e zero h = absurd (omega (arith, h))
in_force_own db e (suc n) h = refl

pub in_force-Reads : {db db' : Db} (e : Employee) → Reads db db' → in_force db' e ≡ in_force db e
in_force-Reads e r = ap (get_or (own_months e.probation_months)) r.months

-- A day that another is not up to lies after it.
after_of : (a b : Date) → IsValid a → IsValid b → date_leb a b ≡ false → to_ordinal b < to_ordinal a
after_of a b va vb h = (date_ltb_iff b a vb va).0 (ground (arith, h))

not_before :
    (a b : Date) → IsValid a → IsValid b → date_ltb a b ≡ false → to_ordinal b ≤ to_ordinal a
not_before a b va vb h = ground (arith, (date_ltb_iff a b va vb).1)

at_least_one_lem : (k : ℕ) → (1 ≤ at_least_one k) × (1 ≤ k → at_least_one k ≡ k)
at_least_one_lem k = (ground arith, λ h. ground arith)

module _ (who : ℕ) (e : Employee) (hired today : Date) (p : DecisionCreate) (v : IsValid hired)
    (t : IsValid today) (w : IsValid p.effective_date) (joined : e.hire_date ≡ some hired) where
  -- The row written by an extension, and the date that it ends on.
  pub extension_window :
      (previous : Option Decision) (db : Db) {d : Date} {db' : Db}
      → is_extended p.outcome ≡ true
      → new_window who e previous p today db ≡ ok (d, db')
      → to_ordinal hired ≤ to_ordinal today
      → let n = months_to_reach hired p.effective_date in
        (d ≡ probation_end hired n)
        × (to_ordinal today < to_ordinal d)
        × ((1 ≤ n) × (n ≤ 24))
        × (was_extended previous ≡ false
            → to_ordinal (probation_end hired (in_force db e)) < to_ordinal d)
        × (lookup who db'.employees ≡ some (record e { probation_months = some n }))
  extension_window previous db {d} {db'} longer h le =
      let (hired1, db1, joined1, reads, cases) = new_window_ok who e previous p today db h in
      let same : hired1 ≡ hired = cc in
      let n = months_to_reach hired p.effective_date in
      let (date_is, ahead, further, within, state) =
        subst (λ x. Extended who e x p.effective_date (in_force db e) db1 previous today d db') same
          (cases.0 longer) in
      let valid =
        λ (m : ℕ). subst IsValid (sym (probation_end_lem hired m)) (add_months-IsValid hired m v) in
      let vd : IsValid d = subst IsValid (sym date_is) (valid n) in
      let after = after_of d today vd t ahead in
      let ordinal_is = ap to_ordinal (date_is ∙ probation_end_lem hired n) in
      (
        date_is,
        after,
        (positive n (omega (arith, after, ordinal_is, le)), within),
        (λ fresh.
            after_of d (probation_end hired (in_force db e)) vd (valid (in_force db e))
              (further fresh)),
        ap (λ x. lookup who x.employees) state
            ∙ lookup-insert_same who (record e { probation_months = some n }) db1.employees,
      )
    where
      positive : (n : ℕ) → to_ordinal hired < to_ordinal (add_months hired n) → 1 ≤ n
      positive zero lt = absurd (omega (arith, lt, add_months_zero hired v))
      positive (suc n) lt = omega arith

  -- The row after a confirmation: nobody is on probation from its day on.
  pub confirmed_window :
      (previous : Option Decision) (db : Db) {d : Date} {db' : Db}
      → is_extended p.outcome ≡ false
      → new_window who e previous p today db ≡ ok (d, db')
      → lookup who db.employees ≡ some e
      → to_ordinal (add_months hired 1) ≤ to_ordinal p.effective_date
      → (d ≡ p.effective_date)
        × ((e' : Employee) × (lookup who db'.employees ≡ some e')
            × (to_ordinal (probation_end hired (in_force db' e')) ≤ to_ordinal p.effective_date))
  confirmed_window previous db {d} {db'} shorter h found le =
      let (hired1, db1, joined1, reads, cases) = new_window_ok who e previous p today db h in
      let same : hired1 ≡ hired = cc in
      let (date_is, state) = confirm_ok who e hired p.effective_date (in_force db e) db1 (
        subst (λ x. confirm who e x p.effective_date (in_force db e) db1 ≡ ok (d, db')) same
          (cases.1 shorter)) in
      let k = anniversaries_reached hired p.effective_date in
      let reached = anniversaries_reached_iff hired p.effective_date v w in
      let ve =
        subst IsValid (sym (probation_end_lem hired (in_force db e)))
          (add_months-IsValid hired (in_force db e) v) in
      (
        date_is,
        (elim (Bool-cases (date_ltb p.effective_date (probation_end hired (in_force db e)))) [
          | inl early ↦
              let there : db' ≡ with_months who e (at_least_one k) db1 = rw early at state in
              let e' = record e { probation_months = some (at_least_one k) } in
              let pos = (reached 1 (omega arith)).1 le in
              let is_k =
                in_force_own db' e (at_least_one k) (at_least_one_lem k).0
                ∙ (at_least_one_lem k).1 pos in
              (
                e',
                ap (λ x. lookup who x.employees) there ∙ lookup-insert_same who e' db1.employees,
                omega (
                  arith,
                  ap to_ordinal (ap (probation_end hired) is_k ∙ probation_end_lem hired k),
                  (reached k pos).0 (omega arith),
                ),
              )
          | inr late ↦
              let there : db' ≡ db1 = rw late at state in
              (
                e,
                ap (λ x. lookup who x.employees) there ∙ ap (lookup who) reads.employees ∙ found,
                omega (
                  arith,
                  ap (λ x. to_ordinal (probation_end hired x))
                      (ap (λ x. in_force x e) there ∙ in_force-Reads e reads),
                  not_before p.effective_date (probation_end hired (in_force db e)) w ve late,
                ),
              )
        ]),
      )
