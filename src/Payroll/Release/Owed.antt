-- ===== src/Payroll/Release/Owed.antt =====
-- Whose payslips a release writes, and the counters: app/services/payroll_service.py,
-- `_release_from_estimate`.
use avora_be.Prelude.{
  ℕ, suc, ◌+◌, ◌≤◌, ◌≡◌, ◌≢◌, ◌∙◌, refl, ap, subst, Bool, true, not, ◌||◌, Option, none, some, List,
  [], ◌∷◌, inl, inr, length, All, ◌==◌, if◌then◌else◌, arith, Bool-cases,
}
use avora_be.Prelude.Dict.{Dict, lookup, lookup-insert_same}
use avora_be.Payroll.Line.{PayrollLine}
use avora_be.Payroll.Release.{
  Figures, figures_of, Payslip, already_holds, Desk, is_unpaid, mail_slip, release_line,
  release_lines, release_from_estimate,
}
use avora_be.Payroll.Release.Again.{
  Distinct, is_owed, skipped-is_owed, kept-is_owed, figures_for, figures_for-none, other_lines,
  other_line,
}

abbrev pub figures_on_file : Option Payslip → Option Figures
figures_on_file none = none
figures_on_file (some slip) = some slip.figures

-- What is on file after a release: the figures of the person's line, or what was there.
abbrev pub or_before : Option Figures → Option Figures → Option Figures
or_before none before = before
or_before (some fresh) before = some fresh

-- How many lines have a compensation and a net above zero.
abbrev pub owed_count : List PayrollLine → ℕ
owed_count [] = 0
owed_count (line ∷ rest) = if is_owed line then suc (owed_count rest) else owed_count rest

-- The line of a person says what is on file for them, if nobody has a second line.
own_figures :
    (who : ℕ) (line : PayrollLine) (rest : List PayrollLine) (old : Option Payslip)
    → (line.employee_id == who) ≡ true
    → All (λ other. other.employee_id ≢ who) rest
    → (if is_owed line then some (figures_of line) else figures_on_file old)
      ≡ or_before (figures_for who (line ∷ rest)) (figures_on_file old)
own_figures who line rest old own alone = elim (Bool-cases (is_owed line)) [
  | inl owed ↦ rw (owed, own, figures_for) refl
  | inr unpaid ↦ rw (unpaid, own, figures_for, figures_for-none who rest alone) refl
]

module _ (reachable sends : ℕ → Bool) (actor : Option ℕ) where
  own_line :
      (line : PayrollLine) (desk : Desk)
      → figures_on_file
          (lookup line.employee_id (release_line reachable sends actor line desk).slips)
        ≡ (if is_owed line
            then some (figures_of line)
            else figures_on_file (lookup line.employee_id desk.slips))
  unfolding release_line mail_slip
  own_line line desk =
      let who = line.employee_id in
      let held = already_holds (lookup who desk.slips) (figures_of line) in
      elim (Bool-cases (line.missing_compensation || is_unpaid line)) [
        | inl skips ↦ rw (skips, skipped-is_owed line skips) refl
        | inr owes ↦ elim (Bool-cases (held || not (reachable who) || not (sends who))) [
          | inl silent ↦ rw (owes, silent, kept-is_owed line owes, lookup-insert_same) refl
          | inr mails ↦ rw (owes, mails, kept-is_owed line owes, lookup-insert_same) refl
        ]
      ]

  lines_on_file :
      (who : ℕ) (lines : List PayrollLine) (desk : Desk)
      → Distinct lines
      → figures_on_file (lookup who (release_lines reachable sends actor lines desk).slips)
        ≡ or_before (figures_for who lines) (figures_on_file (lookup who desk.slips))
  lines_on_file who [] desk distinct = refl
  lines_on_file who (line ∷ rest) desk (apart, distinct) =
      let desk' = release_line reachable sends actor line desk in
      elim (Bool-cases (line.employee_id == who)) [
        | inl own ↦
            let is : line.employee_id ≡ who = ground arith in
            let alone = subst (λ x. All (λ other. other.employee_id ≢ x) rest) is apart in
            let later = other_lines reachable sends actor who rest desk' alone in
            let mine =
              subst
                (λ x. figures_on_file (lookup x desk'.slips) ≡ (
                  if is_owed line
                  then some (figures_of line)
                  else figures_on_file (lookup x desk.slips)))
                is (own_line line desk) in
            ap figures_on_file later.0
            ∙ mine
            ∙ own_figures who line rest (lookup who desk.slips) own alone
        | inr other ↦
            let ne : line.employee_id ≢ who = ground arith in
            let kept = other_line reachable sends actor who line desk ne in
            lines_on_file who rest desk' distinct
            ∙ rw other (ap (λ o. or_before (figures_for who rest) (figures_on_file o)) kept.0)
      ]

  counted_line :
      (line : PayrollLine) (desk : Desk)
      → let after = release_line reachable sends actor line desk in
        (after.released + after.skipped ≡ desk.released + desk.skipped + 1)
        × (after.emailed + desk.released ≤ after.released + desk.emailed)
  unfolding release_line mail_slip
  counted_line line desk =
      let who = line.employee_id in
      let held = already_holds (lookup who desk.slips) (figures_of line) in
      elim (Bool-cases (line.missing_compensation || is_unpaid line)) [
        | inl skips ↦ rw skips (omega arith, omega arith)
        | inr owes ↦ elim (Bool-cases (held || not (reachable who) || not (sends who))) [
          | inl silent ↦ rw (owes, silent) (omega arith, omega arith)
          | inr mails ↦ rw (owes, mails) (omega arith, omega arith)
        ]
      ]

  counted :
      (lines : List PayrollLine) (desk : Desk)
      → desk.emailed ≤ desk.released
      → let result = release_lines reachable sends actor lines desk in
        (result.released + result.skipped ≡ desk.released + desk.skipped + length lines)
        × (result.emailed ≤ result.released)
  counted [] desk le = (omega arith, le)
  counted (line ∷ rest) desk le =
      let one = counted_line line desk in
      let all =
        counted rest (release_line reachable sends actor line desk) (omega (arith, one, le)) in
      (omega (arith, one, all), all.1)

module _ (reachable sends : ℕ → Bool) (actor : Option ℕ) where
  released_line :
      (line : PayrollLine) (desk : Desk)
      → (release_line reachable sends actor line desk).released
        ≡ desk.released + (if is_owed line then 1 else 0)
  unfolding release_line mail_slip
  released_line line desk =
      let who = line.employee_id in
      let held = already_holds (lookup who desk.slips) (figures_of line) in
      elim (Bool-cases (line.missing_compensation || is_unpaid line)) [
        | inl skips ↦ rw (skips, skipped-is_owed line skips) (omega arith)
        | inr owes ↦ elim (Bool-cases (held || not (reachable who) || not (sends who))) [
          | inl silent ↦ rw (owes, silent, kept-is_owed line owes) (omega arith)
          | inr mails ↦ rw (owes, mails, kept-is_owed line owes) (omega arith)
        ]
      ]

  released_lines :
      (lines : List PayrollLine) (desk : Desk)
      → (release_lines reachable sends actor lines desk).released ≡ desk.released + owed_count lines
  released_lines [] desk = omega arith
  released_lines (line ∷ rest) desk =
      let all = released_lines rest (release_line reachable sends actor line desk) in
      ground (arith, all, released_line line desk)

-- The counter of a release is the number of lines that it writes.
pub released-owed_count :
    (reachable sends : ℕ → Bool) (actor : Option ℕ) (lines : List PayrollLine)
    (slips : Dict Payslip)
    → (release_from_estimate reachable sends actor lines slips).released ≡ owed_count lines
unfolding release_from_estimate
released-owed_count reachable sends actor lines slips =
    let desk : Desk = record { slips = slips; sent = []; released = 0; emailed = 0; skipped = 0 } in
    omega (arith, released_lines reachable sends actor lines desk)

-- A release of lines of different people: what is on file for a person afterwards are the figures
-- of their line if it has a compensation and a net above zero, and otherwise what was there
-- before. Each line is counted as released or skipped, and no more are e-mailed than released.
pub release_from_estimate_lem :
    (reachable sends : ℕ → Bool) (actor : Option ℕ) (who : ℕ) (lines : List PayrollLine)
    (slips : Dict Payslip)
    → Distinct lines
    → let desk = release_from_estimate reachable sends actor lines slips in
      (figures_on_file (lookup who desk.slips)
        ≡ or_before (figures_for who lines) (figures_on_file (lookup who slips)))
      × (desk.released + desk.skipped ≡ length lines)
      × (desk.emailed ≤ desk.released)
unfolding release_from_estimate
release_from_estimate_lem reachable sends actor who lines slips distinct =
    let desk : Desk = record { slips = slips; sent = []; released = 0; emailed = 0; skipped = 0 } in
    let (total, le) = counted reachable sends actor lines desk (omega arith) in
    (lines_on_file reachable sends actor who lines desk distinct, omega (arith, total), le)
