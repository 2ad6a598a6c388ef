-- ===== src/Payroll/Line/Days.antt =====
-- The days of a payroll line: app/services/payroll_service.py, `_line_for` over `_month_calendar`.
use avora_be.Prelude.{
  ℕ, zero, suc, ◌+◌, ◌-◌, ◌*◌, ◌≤◌, ◌≡◌, min, max, Bool, Option, none, some, List, [], ◌∷◌, keep,
  length, arith, Bool-cases, inl, inr,
}
use avora_be.Calendar.{Date, date, date_ltb, to_ordinal, month_length, IsValid}
use avora_be.Calendar.Order.{date_leb-false, date_ltb_iff}
use avora_be.Calendar.Months.{month_length_bounds}
use avora_be.Payroll.WorkDays.{
  weekdays_in_month, month_days, days_in_month, payroll_window, payable_base_days, is_working_day,
}
use avora_be.Payroll.Slip.{CalcConfig}
use avora_be.Payroll.Adjust.{day_override, lop_override}
use avora_be.Payroll.Line.{Compensation, month_calendar, in_span, line_for}

-- Valid dates in rising order, none before the day with ordinal `low`.
abbrev Rising : ℕ → List Date → Type 0
Rising low [] = Unit
Rising low (d ∷ ds) = (low ≤ to_ordinal d) × IsValid d × Rising (to_ordinal d + 1) ds

Rising-lower : (low lower : ℕ) (ds : List Date) → lower ≤ low → Rising low ds → Rising lower ds
Rising-lower low lower [] le r = r
Rising-lower low lower (d ∷ ds) le (at, v, r) = (omega arith, v, r)

keep-Rising : (p : Date → Bool) (low : ℕ) (ds : List Date) → Rising low ds → Rising low (keep p ds)
keep-Rising p low [] r = r
keep-Rising p low (d ∷ ds) (at, v, r) = elim (Bool-cases (p d)) [
  | inl is ↦ rw is (at, v, keep-Rising p (to_ordinal d + 1) ds r)
  | inr isnt ↦ rw isnt (
      Rising-lower (to_ordinal d + 1) low (keep p ds) (omega arith)
        (keep-Rising p (to_ordinal d + 1) ds r))
]

-- Of such dates no more lie in a span than it has days.
length-in_span :
    (a b : Date) (low : ℕ) (ds : List Date)
    → IsValid a
    → IsValid b
    → Rising low ds
    → length (keep (in_span (a, b)) ds) ≤ to_ordinal b + 1 - max low (to_ordinal a)
length-in_span a b low [] va vb r = omega arith
length-in_span a b low (d ∷ ds) va vb (at, v, r) = ground (
  arith,
  length-in_span a b (to_ordinal d + 1) ds va vb r,
  date_leb-false a d va v,
  date_leb-false d b v vb,
)

next_ordinal :
    (year month day : ℕ)
    → to_ordinal (date year month (day + 1)) ≡ to_ordinal (date year month day) + 1
unfolding to_ordinal
next_ordinal year month day = omega arith

month_days-Rising :
    (year month left day per_week : ℕ)
    → 1 ≤ year
    → 1 ≤ month
    → month ≤ 12
    → 1 ≤ day
    → day + left ≤ month_length year month + 1
    → Rising (to_ordinal (date year month day)) (month_days year month left day per_week)
unfolding month_days
month_days-Rising year month zero day per_week hy hm hm' hd fits = tt
month_days-Rising year month (suc left) day per_week hy hm hm' hd fits =
    let rest =
      month_days-Rising year month left (day + 1) per_week hy hm hm' (omega arith) (omega arith) in
    let at = next_ordinal year month day in
    elim (Bool-cases (is_working_day (date year month day) per_week)) [
      | inl works ↦ rw works (
        omega arith,
        omega arith,
        Rising-lower (to_ordinal (date year month (day + 1))) (to_ordinal (date year month day) + 1)
            (month_days year month left (day + 1) per_week) (omega (arith, at)) rest,
      )
      | inr off ↦ rw off (
          Rising-lower (to_ordinal (date year month (day + 1))) (to_ordinal (date year month day))
            (month_days year month left (day + 1) per_week) (omega (arith, at)) rest)
    ]

-- `hire_date is None`, or a date of the calendar.
abbrev pub HireIsValid : Option Date → Type 0
HireIsValid none = Unit
HireIsValid (some d) = IsValid d

module _ (year month per_week : ℕ) (holidays : List Date) (today : Date) (hy : 1 ≤ year)
    (hm : 1 ≤ month) (hm' : month ≤ 12) where
  elapsed-Rising :
      Rising
        (to_ordinal (date year month 1))
        (month_calendar year month holidays today per_week).elapsed_working_dates
  unfolding month_calendar weekdays_in_month
  elapsed-Rising = keep-Rising _ (to_ordinal (date year month 1)) _ (
      keep-Rising _ (to_ordinal (date year month 1)) _ (
        month_days-Rising year month (month_length year month) 1 per_week hy hm hm' (omega arith)
          (omega arith)))

  window-IsValid :
      (hire : Option Date)
      → HireIsValid hire
      → IsValid (payroll_window year month hire).0 × IsValid (payroll_window year month hire).1
  unfolding payroll_window days_in_month
  window-IsValid none v =
      (omega (arith, month_length_bounds year month), omega (arith, month_length_bounds year month))
  window-IsValid (some d) v = elim (Bool-cases (date_ltb (date year month 1) d)) [
    | inl joined ↦ rw joined (v, omega (arith, month_length_bounds year month))
    | inr before ↦ rw before (
      omega (arith, month_length_bounds year month),
      omega (arith, month_length_bounds year month),
    )
  ]

  elapsed-le-base :
      (hire : Option Date)
      → HireIsValid hire
      → length (
          keep
            (in_span (payroll_window year month hire))
            (month_calendar year month holidays today per_week).elapsed_working_dates)
        ≤ payable_base_days year month hire
  unfolding payable_base_days
  elapsed-le-base hire v =
      let span = payroll_window year month hire in
      let (va, vb) = window-IsValid hire v in
      let bound =
        length-in_span span.0 span.1 (to_ordinal (date year month 1))
          (month_calendar year month holidays today per_week).elapsed_working_dates va vb
          elapsed-Rising in
      elim (Bool-cases (date_ltb span.1 span.0)) [
        | inl upside_down ↦
            rw upside_down (omega (arith, bound, (date_ltb_iff span.1 span.0 vb va).0 upside_down))
        | inr upright ↦
            let le = (date_ltb_iff span.1 span.0 vb va).1 in rw upright (ground (arith, bound, le))
      ]

  -- Without adjustments the days of a line add up: the days lost are the elapsed working days of
  -- the person's window that were neither present nor on paid leave, and the days lost and the days
  -- paid together are the calendar days of the window.
  pub line_for_days :
      (employee : ℕ) (hire : Option Date) (comp : Option Compensation) (cfg : CalcConfig)
      (present paid reimbursement : ℕ)
      → HireIsValid hire
      → let cal = month_calendar year month holidays today per_week in
        let line = line_for employee hire comp cfg cal present paid [] reimbursement in
        (line.lop_days + min (100 * line.elapsed_working_days) (present + paid)
          ≡ 100 * line.elapsed_working_days)
        × (line.payable_days + line.lop_days ≡ 100 * line.payable_base_days)
  unfolding line_for day_override lop_override month_calendar
  line_for_days employee hire comp cfg present paid reimbursement v =
      (omega arith, omega (arith, elapsed-le-base hire v))
