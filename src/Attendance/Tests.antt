-- ===== src/Attendance/Tests.antt =====
-- Days under the default policy: 9:00, half an hour of buffer, eight hours.
use avora_be.Prelude.{◌≡◌, refl, true, false, some}
use avora_be.Attendance.{PolicySpec, AttendanceStatus, classify_day, status_of}

abbrev policy : PolicySpec
policy = record {
  work_start_minute = 540;
  work_end_minute = 1080;
  monthly_regularizations = 3;
  working_days_per_week = 5;
  timezone = "Asia/Kolkata";
  buffer_minutes = 30;
  regularization_window_minutes = 30;
  full_day_min_minutes = 480;
  half_day_min_minutes = 240;
  full_day_grace_minutes = 10;
  late_full_day_minutes = 480;
  monthly_late_allowance = 3;
}

-- The fourth late arrival of a month is a half day in spite of ten hours of work.
fourth_late :
    (classify_day (some 600) 600 false policy true 3).status ≡ AttendanceStatus.half_day_worked
unfolding classify_day status_of
fourth_late = refl
