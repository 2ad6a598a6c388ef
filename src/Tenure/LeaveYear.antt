-- ===== src/Tenure/LeaveYear.antt =====
-- The leave year: app/core/leave_year.py, `leave_year_window`.
use native.Mathlib.Decide.{dec_lt}
use avora_be.Prelude.{
  Bool, true, false, ◌↔◌, ℕ, ◌+◌, ◌-◌, ◌*◌, ◌≤◌, ◌<◌, ◌≡◌, arith, leb, Bool-cases, inl, inr, refl,
  le_or_lt, if◌then◌else◌,
}
use avora_be.Calendar.{Date, date, IsValid, to_ordinal, prev_day, next_day, date_ltb}
use avora_be.Calendar.Order.{date_ltb_iff}
use avora_be.Calendar.Days.{prev_day-IsValid, to_ordinal-prev_day, next_day-prev_day}
use avora_be.Calendar.Months.{month_length_bounds}
use avora_be.Tenure.{leave_year_window}
use avora_be.Tenure.Months.{earlier_index}

-- A window of one leave year, from 1 April, with `today` in it.
pub record IsLeaveYear (today : Date) (w : Date × Date) : Type 0 where
  pub year : ℕ
  pub opens : w.0 ≡ date year 4 1
  pub closes : next_day w.1 ≡ date (year + 1) 4 1
  pub opens_valid : IsValid w.0
  pub closes_valid : IsValid w.1
  pub starts : to_ordinal w.0 ≤ to_ordinal today
  pub ends : to_ordinal today ≤ to_ordinal w.1

first_of_april : (y : ℕ) → 1 ≤ y → IsValid (date y 4 1)
first_of_april y h = omega (arith, month_length_bounds y 4)

after_april :
    (d : Date) (y : ℕ)
    → IsValid d
    → y * 12 + 4 ≤ d.year * 12 + d.month
    → date_ltb d (date y 4 1) ≡ false
unfolding date_ltb
after_april d y v le = ground (arith, v)

not_before : {b : Bool} {n m : ℕ} → (b ≡ true) ↔ (n < m) → b ≡ false → m ≤ n
not_before {n = n} {m = m} iff e = elim (dec_lt n m) [
  | yes lt ↦ let t = iff.1 lt in cc
  | no ge ↦ omega arith
]

april_order :
    (d : Date) (y : ℕ)
    → IsValid d
    → 1 ≤ y
    → (d.year * 12 + d.month < y * 12 + 4 → to_ordinal d < to_ordinal (date y 4 1))
      × (y * 12 + 4 ≤ d.year * 12 + d.month → to_ordinal (date y 4 1) ≤ to_ordinal d)
april_order d y v h =
    let april = first_of_april y h in
    (
      earlier_index d (date y 4 1) v april,
      λ le. not_before (date_ltb_iff d (date y 4 1) v april) (after_april d y v le),
    )

window-IsLeaveYear :
    (today : Date) (y : ℕ)
    → IsValid today
    → 1 ≤ y
    → y * 12 + 4 ≤ today.year * 12 + today.month
    → today.year * 12 + today.month < (y + 1) * 12 + 4
    → IsLeaveYear today (date y 4 1, prev_day (date (y + 1) 4 1))
window-IsLeaveYear today y v hy lo hi =
    let next = first_of_april (y + 1) (omega arith) in
    record {
      year = y;
      opens = refl;
      closes = next_day-prev_day (date (y + 1) 4 1) next (omega arith);
      opens_valid = first_of_april y hy;
      closes_valid = prev_day-IsValid (date (y + 1) 4 1) next (omega arith);
      starts = (april_order today y v hy).1 lo;
      ends = omega (
        arith,
        (april_order today (y + 1) v (omega arith)).0 (omega arith),
        to_ordinal-prev_day (date (y + 1) 4 1) next (omega arith),
      );
    }

-- The window that holds a day of year 2 or later begins on 1 April, ends the day before the next
-- 1 April, and the day lies in it.
pub leave_year_window-IsLeaveYear :
    (today : Date) → IsValid today → 1 < today.year → IsLeaveYear today (leave_year_window today)
unfolding leave_year_window
leave_year_window-IsLeaveYear today v h = elim (Bool-cases (leb 4 today.month)) [
  | inl late ↦
      rw late
        (window-IsLeaveYear today today.year v (omega arith) (ground arith) (omega (arith, v)))
  | inr early ↦
      rw early (
        window-IsLeaveYear today (today.year - 1) v (omega arith) (omega (arith, v)) (ground arith))
]

-- A leave year that opens on a day is the window of that day.
pub opening-window : (y : ℕ) → (leave_year_window (date y 4 1)).0 ≡ date y 4 1
unfolding leave_year_window
opening-window y = refl

-- The leave year is a function of its first of April.
pub opening-fixed : (d : Date) → leave_year_window (leave_year_window d).0 ≡ leave_year_window d
unfolding leave_year_window
opening-fixed d = refl

year_by_months :
    (d : Date) (y : ℕ)
    → IsValid d
    → y * 12 + 4 ≤ d.year * 12 + d.month
    → d.year * 12 + d.month < (y + 1) * 12 + 4
    → leave_year_window d ≡ (date y 4 1, prev_day (date (y + 1) 4 1))
unfolding leave_year_window
year_by_months d y v lo hi = elim (Bool-cases (leb 4 d.month)) [
  | inl late ↦ let is : d.year ≡ y = ground (arith, v) in rw late (rw is refl)
  | inr early ↦ let is : d.year - 1 ≡ y = ground (arith, v) in rw early (rw is refl)
]

year_by_ordinals :
    (d : Date) (y : ℕ)
    → IsValid d
    → 1 ≤ y
    → to_ordinal (date y 4 1) ≤ to_ordinal d
    → to_ordinal d ≤ to_ordinal (prev_day (date (y + 1) 4 1))
    → leave_year_window d ≡ (date y 4 1, prev_day (date (y + 1) 4 1))
year_by_ordinals d y v h lo hi =
    let next =
      to_ordinal-prev_day (date (y + 1) 4 1) (first_of_april (y + 1) (omega arith)) (omega arith) in
    year_by_months d y v
      (elim (le_or_lt (y * 12 + 4) (d.year * 12 + d.month)) [
        | inl le ↦ le
        | inr lt ↦ absurd (omega (arith, lo, (april_order d y v h).0 lt))
      ])
      (elim (le_or_lt ((y + 1) * 12 + 4) (d.year * 12 + d.month)) [
        | inl le ↦ absurd (omega (arith, hi, next, (april_order d (y + 1) v (omega arith)).1 le))
        | inr lt ↦ lt
      ])

-- A day inside a leave year has it as its own.
pub leave_year_window_unique :
    (a d : Date)
    → IsValid a
    → IsValid d
    → 1 < a.year
    → to_ordinal (leave_year_window a).0 ≤ to_ordinal d
    → to_ordinal d ≤ to_ordinal (leave_year_window a).1
    → leave_year_window d ≡ leave_year_window a
unfolding leave_year_window
leave_year_window_unique a d va vd h lo hi =
    year_by_ordinals d (if leb 4 a.month then a.year else a.year - 1) vd (ground arith) lo hi
