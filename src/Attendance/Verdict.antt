-- ===== src/Attendance/Verdict.antt =====
-- How the verdict of app/core/attendance.py, `classify_day`, moves with what it is given.
use avora_be.Prelude.{
  ℕ, ◌≤◌, ◌≡◌, ◌↔◌, refl, Bool, true, false, ◌||◌, Option, none, some, arith, ltb, leb,
}
use avora_be.Attendance.{
  PolicySpec, AttendanceStatus, classify_day, status_of, required_minutes, on_time_cutoff,
}

-- How good a status is for the employee.
unfoldable pub rank : AttendanceStatus → ℕ
rank AttendanceStatus.absent = 0
rank AttendanceStatus.half_day_worked = 1
rank AttendanceStatus.late = 2
rank AttendanceStatus.present = 2
rank AttendanceStatus.full_day = 3

-- For the same arrival, more minutes worked never give a worse status, in the order absent, half
-- day, late or present, full day.
pub classify_day_mono :
    (arrival : Option ℕ) (less more : ℕ) (reg : Bool) (p : PolicySpec) (complete : Bool) (lates : ℕ)
    → less ≤ more
    → rank (classify_day arrival less reg p complete lates).status
      ≤ rank (classify_day arrival more reg p complete lates).status
unfolding classify_day status_of rank
classify_day_mono none less more reg p complete lates h = ground arith
classify_day_mono (some arrival) less more reg p complete lates h = ground arith

-- Regularising a day never gives a worse status in that order (absent, half day, late or present,
-- full day), and afterwards it cannot be contested.
pub classify_day-regularized :
    (arrival : Option ℕ) (worked : ℕ) (p : PolicySpec) (complete : Bool) (lates : ℕ)
    → (rank (classify_day arrival worked false p complete lates).status
        ≤ rank (classify_day arrival worked true p complete lates).status)
      × ((classify_day arrival worked true p complete lates).regularizable ≡ false)
unfolding classify_day status_of rank
classify_day-regularized none worked p complete lates = (ground arith, refl)
classify_day-regularized (some arrival) worked p complete lates = (ground arith, refl)

-- Without regularisation, a completed day with a punch is a full day exactly if the hours that the
-- arrival owes and those of a half day were worked, and the arrival was on time or within the
-- month's allowance.
pub full_day_iff :
    (arrival worked : ℕ) (p : PolicySpec) (lates : ℕ)
    → ((classify_day (some arrival) worked false p true lates).status ≡ AttendanceStatus.full_day)
      ↔ ((required_minutes p arrival ≤ worked)
          × (p.half_day_min_minutes ≤ worked)
          × ((leb arrival (on_time_cutoff p) || ltb lates p.monthly_late_allowance) ≡ true))
unfolding classify_day status_of
full_day_iff arrival worked p lates =
    (λ h. (ground arith, ground arith, ground arith), λ (a, b, c). ground arith)
