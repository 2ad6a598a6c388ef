-- ===== src/Probation/Window.antt =====
-- The probation after an outcome, by the tenure bands that everybody reads: `decide` of
-- app/services/probation_service.py with app/core/tenure.py.
use avora_be.Prelude.{ℕ, ◌≡◌, ◌≢◌, ◌≤◌, ◌<◌, Bool, false, some, arith, ap, subst, sym, ◌∙◌}
use avora_be.Prelude.Dict.{lookup}
use avora_be.Prelude.Service.{ok}
use avora_be.Calendar.{Date, IsValid, to_ordinal}
use avora_be.Auth.{CurrentUser}
use avora_be.Staff.{Employee}
use avora_be.Tenure.{
  probation, probation_end, add_months, months_to_reach, tenure_status, months_in_year,
}
use avora_be.Tenure.Months.{months_to_reach_fewest}
use avora_be.Tenure.Bands.{tenure_status-Band, tenure_status_past_end, probation_end_lem}
use avora_be.Probation.{Db, Decision, ProbationOutcome, is_terminated}
use avora_be.Probation.Desk.{DecisionCreate, decide, is_extended, was_extended, new_decision}
use avora_be.Probation.Writes.{Recorded, decide_writes}
use avora_be.Probation.Outcome.{in_force, end_before_extension-Reads}
use avora_be.Probation.Written.{
  effective_is, apply_outcome_window, in_force_own, in_force-Reads, extension_window,
  confirmed_window,
}

-- The months of a probation that is extended, and the day that was put on file.
pub record ExtendedTo (hired today : Date) (p : DecisionCreate) (months : ℕ) (day : Date)
    : Type 0 where
  pub ends : day ≡ probation_end hired months
  pub on_time : to_ordinal p.effective_date ≤ to_ordinal day
  pub fewest : (k : ℕ) → k < months → to_ordinal (add_months hired k) < to_ordinal p.effective_date
  pub ahead : to_ordinal today < to_ordinal day
  pub at_most : (1 ≤ months) × (months ≤ 24)

module _ (caller : CurrentUser) (who : ℕ) (p : DecisionCreate) (uploaded delivered : Bool) (now : ℕ)
    (db : Db) (e : Employee) (hired today : Date) (v : IsValid hired) (t : IsValid today)
    (w : IsValid p.effective_date) (found : lookup who db.employees ≡ some e)
    (joined : e.hire_date ≡ some hired) where
  abbrev pub Lengthened : Decision → Db → Type 0
  Lengthened d db' =
      (e' : Employee) × (lookup who db'.employees ≡ some e')
      × ExtendedTo hired today p (in_force db' e') d.effective_date
      × (was_extended (lookup who db.decisions) ≡ false
          → to_ordinal (probation_end hired (in_force db e)) < to_ordinal d.effective_date)
      × ((day : Date)
          → IsValid day
          → to_ordinal day < to_ordinal d.effective_date
          → to_ordinal day < to_ordinal (add_months hired months_in_year)
          → tenure_status hired day (in_force db' e') ≡ probation)

  abbrev pub Confirmed : Decision → Db → Type 0
  Confirmed d db' =
      (d.effective_date ≡ p.effective_date)
      × ((e' : Employee) × (lookup who db'.employees ≡ some e')
          × ((day : Date)
              → IsValid day
              → to_ordinal p.effective_date ≤ to_ordinal day
              → tenure_status hired day (in_force db' e') ≢ probation))

  Recorded-extends :
      {d : Decision} {db' : Db}
      → p.outcome ≡ ProbationOutcome.extended
      → to_ordinal hired ≤ to_ordinal today
      → Recorded caller who p uploaded delivered today now e db d db'
      → Lengthened d db'
  Recorded-extends {d} {db'} extends_ le rr =
      let previous = lookup who db.decisions in
      let reads = end_before_extension-Reads e previous p db rr.first in
      let (ends, after, (pos, top), further, row) =
        extension_window who e hired today p v t w joined previous rr.db1 (ap is_extended extends_)
          (apply_outcome_window who e previous p today rr.db1 (ap is_terminated extends_) rr.window)
          le in
      let n = months_to_reach hired p.effective_date in
      let e' = record e { probation_months = some n } in
      let force : in_force db' e' ≡ n = in_force_own db' e n pos in
      let day_is : d.effective_date ≡ rr.effective =
        ap (λ x. x.effective_date) rr.decision
        ∙ effective_is p delivered now
            (new_decision caller p (db.titles who) rr.original rr.effective now) in
      let (reach, few) = months_to_reach_fewest hired v p.effective_date w in
      let extent : ExtendedTo hired today p n rr.effective = record {
        ends = ends;
        on_time = omega (arith, reach, ap to_ordinal (ends ∙ probation_end_lem hired n));
        fewest = few;
        ahead = after;
        at_most = (pos, top);
      } in
      (
        e',
        ap (λ x. lookup who x.employees) rr.state ∙ row,
        subst (λ m. ExtendedTo hired today p m d.effective_date) (sym force)
            (subst (ExtendedTo hired today p n) (sym day_is) extent),
        (λ fresh. omega (
          arith,
          further fresh,
          ap to_ordinal day_is,
          ap (λ m. to_ordinal (probation_end hired m)) (in_force-Reads e reads),
        )),
        λ day vd early year.
            ap (tenure_status hired day) force
            ∙ (tenure_status-Band hired day n v vd pos).on_probation.1
                (omega (arith, early, ap to_ordinal (day_is ∙ ends)), year),
      )

  Recorded-confirms :
      {d : Decision} {db' : Db}
      → p.outcome ≡ ProbationOutcome.confirmed
      → to_ordinal (add_months hired 1) ≤ to_ordinal p.effective_date
      → Recorded caller who p uploaded delivered today now e db d db'
      → Confirmed d db'
  Recorded-confirms {d} {db'} confirms le rr =
      let previous = lookup who db.decisions in
      let reads = end_before_extension-Reads e previous p db rr.first in
      let (date_is, (e', row, over)) =
        confirmed_window who e hired today p v t w joined previous rr.db1 (ap is_extended confirms)
          (apply_outcome_window who e previous p today rr.db1 (ap is_terminated confirms) rr.window)
          (ap (lookup who) reads.employees ∙ found) le in
      let months_as = ap (λ x. in_force x e') rr.state in
      (
        ap (λ x. x.effective_date) rr.decision
            ∙ effective_is p delivered now
                (new_decision caller p (db.titles who) rr.original rr.effective now)
            ∙ date_is,
        (
          e',
          ap (λ x. lookup who x.employees) rr.state ∙ row,
          λ day vd later.
              tenure_status_past_end hired day (in_force db' e') v vd (
                omega (arith, later, over, ap (λ m. to_ordinal (probation_end hired m)) months_as)),
        ),
      )

  recorded :
      {d : Decision} {db' : Db}
      → decide caller who p uploaded delivered today now db ≡ ok (d, db')
      → Recorded caller who p uploaded delivered today now e db d db'
  recorded {d} {db'} h =
      let (e1, found1, _, _, r) = decide_writes caller who p uploaded delivered today now db h in
      let same : e1 ≡ e = cc in
      subst (λ x. Recorded caller who p uploaded delivered today now x db d db') same r

  -- For somebody who has joined, with valid dates: an extension that is recorded gives the employee
  -- between one and 24 months of probation, the fewest whose end is not before the date that was
  -- asked for; the decision has that end, which lies ahead, and, where the outcome before was not an
  -- extension, after the end that was in force. Until then, in the first year, the tenure status is
  -- probation.
  pub decide_extends :
      {d : Decision} {db' : Db}
      → p.outcome ≡ ProbationOutcome.extended
      → to_ordinal hired ≤ to_ordinal today
      → decide caller who p uploaded delivered today now db ≡ ok (d, db')
      → Lengthened d db'
  decide_extends extends_ le h = Recorded-extends extends_ le (recorded h)

  -- For somebody who has joined, with valid dates: a confirmation from a date a month after joining
  -- or later that is recorded has that date on file, and from that day on the tenure status of the
  -- employee is not probation.
  pub decide_confirms :
      {d : Decision} {db' : Db}
      → p.outcome ≡ ProbationOutcome.confirmed
      → to_ordinal (add_months hired 1) ≤ to_ordinal p.effective_date
      → decide caller who p uploaded delivered today now db ≡ ok (d, db')
      → Confirmed d db'
  decide_confirms confirms le h = Recorded-confirms confirms le (recorded h)
