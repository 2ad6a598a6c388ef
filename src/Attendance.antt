-- ===== src/Attendance.antt =====
-- The verdict on a day, app/core/attendance.py. The arrival is the local minute of the day that
-- `local_minute` computes, or none without a punch.
pub mod Verdict
mod Tests
use Prim.Native.String.{String}
use avora_be.Prelude.{
  ℕ, ◌+◌, ◌-◌, Bool, true, false, not, ◌&&◌, ◌||◌, Option, none, some, ltb, leb, if◌then◌else◌,
}

pub data AttendanceStatus : Type 0 where
  full_day half_day_worked late absent present : AttendanceStatus

pub record PolicySpec : Type 0 where
  pub work_start_minute : ℕ
  pub work_end_minute : ℕ
  pub buffer_minutes : ℕ
  pub regularization_window_minutes : ℕ
  pub full_day_min_minutes : ℕ
  pub half_day_min_minutes : ℕ
  pub monthly_regularizations : ℕ
  pub working_days_per_week : ℕ
  pub timezone : String
  pub full_day_grace_minutes : ℕ
  pub late_full_day_minutes : ℕ
  pub monthly_late_allowance : ℕ

pub record DayVerdict : Type 0 where
  pub status : AttendanceStatus
  pub late_login : Bool
  pub regularizable : Bool
  pub regularized : Bool
  pub early_logout : Bool
  pub arrival_minute : Option ℕ

abbrev pub on_time_cutoff : PolicySpec → ℕ
on_time_cutoff p = p.work_start_minute + p.buffer_minutes

abbrev pub regularizable_cutoff : PolicySpec → ℕ
regularizable_cutoff p = on_time_cutoff p + p.regularization_window_minutes

-- `max(0, a - b)` is the subtraction of the natural numbers.
abbrev pub full_day_hours_cutoff : PolicySpec → ℕ
full_day_hours_cutoff p = p.full_day_min_minutes - p.full_day_grace_minutes

-- `_CONTESTABLE`
abbrev pub contestable : AttendanceStatus → Bool
contestable AttendanceStatus.late = true
contestable AttendanceStatus.half_day_worked = true
contestable AttendanceStatus.absent = true
contestable _ = false

-- The minutes that the arrival owes.
abbrev pub required_minutes : PolicySpec → ℕ → ℕ
required_minutes p arrival =
    if leb arrival (on_time_cutoff p) then full_day_hours_cutoff p else p.late_full_day_minutes

-- The status of a day with a punch.
unfoldable pub status_of : PolicySpec → ℕ → ℕ → Bool → Bool → ℕ → AttendanceStatus
status_of p arrival worked regularized day_complete prior_lates =
    let on_time = leb arrival (on_time_cutoff p) in
    if not on_time && leb p.monthly_late_allowance prior_lates && not regularized
    then AttendanceStatus.half_day_worked
    else if day_complete && ltb worked p.half_day_min_minutes
    then AttendanceStatus.half_day_worked
    else if leb (required_minutes p arrival) worked
    then AttendanceStatus.full_day
    else if regularized
    then AttendanceStatus.full_day
    else if not day_complete
    then AttendanceStatus.present
    else if not on_time
    then AttendanceStatus.late
    else AttendanceStatus.half_day_worked

unfoldable pub classify_day : Option ℕ → ℕ → Bool → PolicySpec → Bool → ℕ → DayVerdict
unfolding status_of
classify_day none worked regularized p day_complete prior_lates = record {
  status = AttendanceStatus.absent;
  late_login = false;
  regularizable = not regularized;
  regularized = regularized;
  early_logout = false;
  arrival_minute = none;
}
classify_day (some arrival) worked regularized p day_complete prior_lates =
    let status = status_of p arrival worked regularized day_complete prior_lates in
    record {
      status = status;
      late_login = not (leb arrival (on_time_cutoff p));
      regularizable = not regularized && contestable status;
      regularized = regularized;
      early_logout = day_complete && ltb worked (required_minutes p arrival);
      arrival_minute = some arrival;
    }
