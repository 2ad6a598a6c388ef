-- ===== src/Payroll/Release/Month.antt =====
-- A whole month's release: app/services/payroll_service.py, `finalize` over `estimate`.
use avora_be.Prelude.{
  ℕ, ◌≡◌, ◌≢◌, ◌∙◌, refl, ap, Bool, true, false, Option, some, List, [], ◌∷◌, All, arith,
}
use avora_be.Prelude.Dict.{Dict, lookup}
use avora_be.Prelude.Service.{ok}
use avora_be.Calendar.{Date}
use avora_be.Auth.{CurrentUser, can_manage_payroll}
use avora_be.Payroll.Slip.{CalcConfig}
use avora_be.Prelude.Int.{ℤ, pos, ◌+ℤ◌}
use avora_be.Payroll.Line.{MonthCalendar, PayrollLine, line_for}
use avora_be.Payroll.Release.{
  Db, Desk, Inputs, estimate, estimate_lines, release_from_estimate, finalize, total_net,
}
use avora_be.Payroll.Release.Again.{Distinct, figures_for}
use avora_be.Payroll.Release.Owed.{
  figures_on_file, or_before, owed_count, released-owed_count, release_from_estimate_lem,
}

-- The roster names nobody twice.
abbrev pub DistinctKeys : Dict (Option Date) → Type 0
DistinctKeys [] = Unit
DistinctKeys ((k, hire) ∷ rest) = All (λ row. row.0 ≢ k) rest × DistinctKeys rest

module _ (cfg : CalcConfig) (cal : MonthCalendar) (inputs : Inputs) where
  others_estimated :
      (k : ℕ) (staff : Dict (Option Date))
      → All (λ row. row.0 ≢ k) staff
      → All (λ line. line.employee_id ≢ k) (estimate_lines cfg cal inputs staff)
  unfolding estimate_lines line_for
  others_estimated k [] none_of = tt
  others_estimated k ((j, hire) ∷ rest) (ne, more) = (ne, others_estimated k rest more)

  estimate_lines-Distinct :
      (staff : Dict (Option Date))
      → DistinctKeys staff
      → Distinct (estimate_lines cfg cal inputs staff)
  unfolding estimate_lines line_for
  estimate_lines-Distinct [] distinct = tt
  estimate_lines-Distinct ((k, hire) ∷ rest) (apart, distinct) =
      (others_estimated k rest apart, estimate_lines-Distinct rest distinct)

-- The nets of the lines with a compensation, added up.
abbrev pub nets : List PayrollLine → ℤ
nets [] = pos 0
nets (line ∷ rest) = elim line.missing_compensation [
  | false ↦ line.net_minor +ℤ nets rest
  | true ↦ nets rest
]

total_net-nets : (lines : List PayrollLine) → total_net lines ≡ nets lines
total_net-nets [] = refl
total_net-nets (line ∷ rest) = ground (arith, total_net-nets rest)

-- If a month is finalised, over a roster that names nobody twice, the caller may manage payroll,
-- what is on file for a person are the figures of the line that the estimate made for them (or what
-- was there before, where the line has no compensation or no net above zero), the run counts the
-- lines of the estimate with a compensation and a net above zero, its total is that of all lines
-- with a compensation, and it names the caller.
pub finalize_lem :
    (caller : CurrentUser) (cfg : CalcConfig) (cal : MonthCalendar) (reachable sends : ℕ → Bool)
    (who : ℕ) (db : Db) {desk : Desk} {db' : Db}
    → DistinctKeys db.inputs.staff
    → finalize caller cfg cal reachable sends db ≡ ok (desk, db')
    → (can_manage_payroll caller ≡ true)
      × (figures_on_file (lookup who db'.slips)
          ≡ or_before
              (figures_for who (estimate cfg cal db.inputs))
              (figures_on_file (lookup who db.slips)))
      × (db'.run
          ≡ some (record {
            total_net_minor = nets (estimate cfg cal db.inputs);
            employee_count = owed_count (estimate cfg cal db.inputs);
            triggered_by = some caller.employee_id;
          }))
unfolding finalize estimate
finalize_lem caller cfg cal reachable sends who db {desk} {db'} distinct h =
    let written =
      release_from_estimate_lem reachable sends (some caller.employee_id) who
        (estimate cfg cal db.inputs) db.slips
        (estimate_lines-Distinct cfg cal db.inputs db.inputs.staff distinct) in
    let stored : db'.slips
        ≡ (release_from_estimate reachable sends (some caller.employee_id)
            (estimate cfg cal db.inputs) db.slips).slips =
      ground arith in
    let counted =
      released-owed_count reachable sends (some caller.employee_id) (estimate cfg cal db.inputs)
        db.slips in
    (
      ground arith,
      ap (λ d. figures_on_file (lookup who d)) stored ∙ written.0,
      ground (arith, counted, total_net-nets (estimate cfg cal db.inputs)),
    )
