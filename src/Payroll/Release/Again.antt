-- ===== src/Payroll/Release/Again.antt =====
-- Releasing a month again: app/services/payroll_service.py, `_release_from_estimate`.
use mathlib.Core.Logic.{if_pos}
use avora_be.Prelude.{
  ℕ, ◌+◌, ◌≡◌, ◌≢◌, ◌∙◌, refl, sym, ap, subst, Bool, true, false, not, ◌&&◌, ◌||◌, Option, none,
  some, List, [], ◌∷◌, ◌++◌, inl, inr, All, ◌==◌, if◌then◌else◌, arith, Bool-cases, ltb,
}
use avora_be.Prelude.Dict.{Dict, lookup, insert, lookup-insert, lookup-insert_same}
use avora_be.Prelude.Int.{pos_part}
use avora_be.Staff.Scope.{member}
use avora_be.Payroll.Line.{PayrollLine}
use avora_be.Payroll.Release.{
  Figures, Figures-discrete, same_figures, figures_of, Payslip, already_holds, upserted, Desk,
  is_unpaid, mail_slip, release_line, release_lines, release_from_estimate,
}

-- The employees of the lines are different people.
abbrev pub Distinct : List PayrollLine → Type 0
Distinct [] = Unit
Distinct (line ∷ rest) = All (λ other. other.employee_id ≢ line.employee_id) rest × Distinct rest

-- The line has a compensation and a net above zero.
abbrev pub is_owed : PayrollLine → Bool
is_owed line = not line.missing_compensation && ltb 0 (pos_part line.net_minor)

-- The loop skips the other lines, and only those.
pub skipped-is_owed :
    (line : PayrollLine) → line.missing_compensation || is_unpaid line ≡ true → is_owed line ≡ false
skipped-is_owed line h = ground arith

pub kept-is_owed :
    (line : PayrollLine) → line.missing_compensation || is_unpaid line ≡ false → is_owed line ≡ true
kept-is_owed line h = ground arith

-- What the lines would freeze for a person.
abbrev pub figures_for : ℕ → List PayrollLine → Option Figures
figures_for who [] = none
figures_for who (line ∷ rest) =
    if line.employee_id == who && is_owed line then some (figures_of line) else figures_for who rest

same_figures_refl : (a : Figures) → same_figures a a ≡ true
unfolding same_figures
same_figures_refl a = if_pos (Figures-discrete a a) refl true false

-- A slip that was sent is held.
holds_own :
    (fresh : Figures) (by : Option ℕ)
    → already_holds (some (record { figures = fresh; emailed = true; finalized_by = by })) fresh
      ≡ true
unfolding already_holds
holds_own fresh by = same_figures_refl fresh

member-snoc : (k x : ℕ) (xs : List ℕ) → member k (xs ++ (x ∷ [])) ≡ (member k xs || x == k)
member-snoc k x [] = ground arith
member-snoc k x (y ∷ xs) = ground (arith, member-snoc k x xs)

module _ (reachable sends : ℕ → Bool) (actor : Option ℕ) (who : ℕ) where
  mail_other :
      (to : ℕ) (slip : Payslip) (held : Bool) (desk : Desk)
      → to ≢ who
      → (lookup who (mail_slip reachable sends actor to slip held desk).slips
          ≡ lookup who desk.slips)
        × (member who (mail_slip reachable sends actor to slip held desk).sent
            ≡ member who desk.sent)
  unfolding mail_slip
  mail_other to slip held desk ne =
      let wrote = lookup-insert who to (record slip { emailed = true }) desk.slips in
      let told = member-snoc who to desk.sent in
      elim (Bool-cases (held || not (reachable to) || not (sends to))) [
        | inl silent ↦ rw silent (refl, refl)
        | inr mails ↦ rw mails (ground (arith, wrote), ground (arith, told))
      ]

  -- A line of somebody else changes neither the payslip nor the messages of a person.
  pub other_line :
      (line : PayrollLine) (desk : Desk)
      → line.employee_id ≢ who
      → (lookup who (release_line reachable sends actor line desk).slips ≡ lookup who desk.slips)
        × (member who (release_line reachable sends actor line desk).sent ≡ member who desk.sent)
  unfolding release_line
  other_line line desk ne =
      let old = lookup line.employee_id desk.slips in
      let slip = upserted old (figures_of line) actor in
      let stored = record desk {
        slips = insert line.employee_id slip desk.slips;
        released = desk.released + 1;
      } in
      let mail = mail_other line.employee_id slip (already_holds old (figures_of line)) stored ne in
      let wrote = lookup-insert who line.employee_id slip desk.slips in
      elim (Bool-cases (line.missing_compensation || is_unpaid line)) [
        | inl skips ↦ rw skips (refl, refl)
        | inr owes ↦ rw owes (mail.0 ∙ ground (arith, wrote), mail.1)
      ]

  pub other_lines :
      (lines : List PayrollLine) (desk : Desk)
      → All (λ line. line.employee_id ≢ who) lines
      → (lookup who (release_lines reachable sends actor lines desk).slips ≡ lookup who desk.slips)
        × (member who (release_lines reachable sends actor lines desk).sent ≡ member who desk.sent)
  other_lines [] desk none_of = (refl, refl)
  other_lines (line ∷ rest) desk (ne, more) =
      let one = other_line line desk ne in
      let all = other_lines rest (release_line reachable sends actor line desk) more in
      (all.0 ∙ one.0, all.1 ∙ one.1)

module _ (reachable sends : ℕ → Bool) (actor : Option ℕ) (line : PayrollLine) (desk : Desk) where
  -- Whoever holds the slip already is not sent it.
  held_line :
      already_holds (lookup line.employee_id desk.slips) (figures_of line) ≡ true
      → (release_line reachable sends actor line desk).sent ≡ desk.sent
  unfolding release_line mail_slip
  held_line held = elim (Bool-cases (line.missing_compensation || is_unpaid line)) [
    | inl skips ↦ rw skips refl
    | inr owes ↦ rw (owes, held) refl
  ]

  -- After a line that sends a message the person holds the slip.
  sending_line :
      member line.employee_id desk.sent ≡ false
      → member line.employee_id (release_line reachable sends actor line desk).sent ≡ true
      → (is_owed line ≡ true)
        × (already_holds
              (lookup line.employee_id (release_line reachable sends actor line desk).slips)
              (figures_of line)
            ≡ true)
  unfolding release_line mail_slip
  sending_line before after =
      let who = line.employee_id in
      let held = already_holds (lookup who desk.slips) (figures_of line) in
      elim (Bool-cases (line.missing_compensation || is_unpaid line)) [
        | inl skips ↦ absurd (ground (arith, rw skips at after))
        | inr owes ↦ elim (Bool-cases (held || not (reachable who) || not (sends who))) [
          | inl silent ↦ absurd (ground (arith, rw (owes, silent) at after))
          | inr mails ↦
              rw (owes, mails, lookup-insert_same)
                (kept-is_owed line owes, holds_own (figures_of line) actor)
        ]
      ]

-- Whoever got a message holds the slip of the line that is about them.
sent-holds :
    (reachable sends : ℕ → Bool) (actor : Option ℕ) (who : ℕ) (lines : List PayrollLine)
    (desk : Desk)
    → Distinct lines
    → member who desk.sent ≡ false
    → member who (release_lines reachable sends actor lines desk).sent ≡ true
    → (fresh : Figures) × (figures_for who lines ≡ some fresh)
      × (already_holds (lookup who (release_lines reachable sends actor lines desk).slips) fresh
          ≡ true)
sent-holds reachable sends actor who [] desk distinct before after = absurd (ground arith)
sent-holds reachable sends actor who (line ∷ rest) desk (apart, distinct) before after =
    let desk' = release_line reachable sends actor line desk in
    elim (Bool-cases (line.employee_id == who)) [
      | inl own ↦
          let is : line.employee_id ≡ who = ground arith in
          let later =
            other_lines reachable sends actor who rest desk'
              (subst (λ x. All (λ other. other.employee_id ≢ x) rest) is apart) in
          let (owed, held) =
            sending_line reachable sends actor line desk
              (subst (λ x. member x desk.sent ≡ false) (sym is) before)
              (subst (λ x. member x desk'.sent ≡ true) (sym is) (sym later.1 ∙ after)) in
          (
            figures_of line,
            ground arith,
            ap (λ o. already_holds o (figures_of line)) later.0
                ∙ subst (λ x. already_holds (lookup x desk'.slips) (figures_of line) ≡ true) is
                    held,
          )
      | inr other ↦
          let ne : line.employee_id ≢ who = ground arith in
          let kept = other_line reachable sends actor who line desk ne in
          let (fresh, is, held) =
            sent-holds reachable sends actor who rest desk' distinct (kept.1 ∙ before) after in
          (fresh, ground arith, held)
    ]

pub figures_for-none :
    (who : ℕ) (lines : List PayrollLine)
    → All (λ line. line.employee_id ≢ who) lines
    → figures_for who lines ≡ none
figures_for-none who [] none_of = refl
figures_for-none who (line ∷ rest) (ne, more) = ground (arith, figures_for-none who rest more)

-- Whoever holds the slip of the line that is about them gets no message.
holds-not_sent :
    (reachable sends : ℕ → Bool) (actor : Option ℕ) (who : ℕ) (fresh : Figures)
    (lines : List PayrollLine) (desk : Desk)
    → Distinct lines
    → figures_for who lines ≡ some fresh
    → already_holds (lookup who desk.slips) fresh ≡ true
    → member who desk.sent ≡ false
    → member who (release_lines reachable sends actor lines desk).sent ≡ false
holds-not_sent reachable sends actor who fresh [] desk distinct is held before = before
holds-not_sent reachable sends actor who fresh (line ∷ rest) desk (apart, distinct) is held before =
    let desk' = release_line reachable sends actor line desk in
    elim (Bool-cases (line.employee_id == who)) [
      | inl own ↦
          let is_who : line.employee_id ≡ who = ground arith in
          let alone = subst (λ x. All (λ other. other.employee_id ≢ x) rest) is_who apart in
          let later = other_lines reachable sends actor who rest desk' alone in
          let owed : figures_of line ≡ fresh = ground (arith, figures_for-none who rest alone) in
          let same : desk'.sent ≡ desk.sent = held_line reachable sends actor line desk (
            subst (λ x. already_holds (lookup x desk.slips) (figures_of line) ≡ true) (sym is_who)
              (ap (already_holds (lookup who desk.slips)) owed ∙ held)) in
          later.1 ∙ ap (member who) same ∙ before
      | inr other ↦
          let ne : line.employee_id ≢ who = ground arith in
          let kept = other_line reachable sends actor who line desk ne in
          holds-not_sent reachable sends actor who fresh rest desk' distinct (ground arith)
            (ap (λ o. already_holds o fresh) kept.0 ∙ held) (kept.1 ∙ before)
    ]

-- A month released twice with the same lines of different people sends nobody the slip twice,
-- whatever addresses were on file and whichever messages the server took each time: whoever got a
-- message at the first release gets none at the second.
pub never_mailed_twice :
    (reachable sends reachable' sends' : ℕ → Bool) (actor actor' : Option ℕ) (who : ℕ)
    (lines : List PayrollLine) (slips : Dict Payslip)
    → Distinct lines
    → let first = release_from_estimate reachable sends actor lines slips in
      member who first.sent ≡ true
      → member who (release_from_estimate reachable' sends' actor' lines first.slips).sent ≡ false
unfolding release_from_estimate
never_mailed_twice reachable sends reachable' sends' actor actor' who lines slips distinct mailed =
    let (fresh, is, held) =
      sent-holds reachable sends actor who lines
        (record { slips = slips; sent = []; released = 0; emailed = 0; skipped = 0 }) distinct refl
        mailed in
    holds-not_sent reachable' sends' actor' who fresh lines _ distinct is held refl
