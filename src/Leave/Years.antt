-- ===== src/Leave/Years.antt =====
-- A request split over the leave years that it touches: app/services/leave_service.py,
-- `_leave_year_windows`, and app/services/leave_rules.py, `days_in_window`.

use avora_be.Prelude.{
  ℕ, zero, suc, ◌+◌, ◌-◌, ◌*◌, ◌≤◌, ◌<◌, ◌≡◌, refl, sym, ◌∙◌, ap, subst, false, List, [], ◌∷◌, inl,
  inr, arith, Bool-cases, le_or_lt,
}
use avora_be.Calendar.{Date, date, IsValid, to_ordinal, date_leb, date_max, date_min, next_day}
use avora_be.Calendar.Order.{
  date_leb-true, date_leb-false, date_min_fst, date_min_snd, date_max_fst, date_max_snd,
}
use avora_be.Calendar.Days.{next_day-IsValid, to_ordinal-next_day}
use avora_be.Payroll.WorkDays.{working_days_between}
use avora_be.Payroll.WorkDays.Counting.{working_days_between_split}
use avora_be.Tenure.{leave_year_window}
use avora_be.Tenure.LeaveYear.{opening-window, leave_year_window-IsLeaveYear}
use avora_be.Leave.{LeaveType, days_in_window, leave_weight, is_half_day}
use avora_be.Leave.Balance.{leave_year_windows, window_loop}

module _ (holidays : List Date) (per_week : ℕ) (first last : Date) where
  -- The working days of [first, last] inside each window, added up.
  abbrev pub total_days : List (Date × Date) → ℕ
  total_days [] = 0
  total_days (w ∷ ws) =
      working_days_between (date_max w.0 first) (date_min w.1 last) holidays per_week
      + total_days ws

  -- What the leave [first, last] spends in each window, added up.
  unfoldable pub spread : LeaveType → List (Date × Date) → ℕ
  spread t [] = 0
  spread t (w ∷ ws) = days_in_window t (first, last) w holidays per_week + spread t ws

  spread-total_days :
      (t : LeaveType) (ws : List (Date × Date)) → spread t ws ≡ total_days ws * leave_weight t
  unfolding spread days_in_window
  spread-total_days t [] = elim (Bool-cases (is_half_day t)) [
    | inl e ↦ rw e (omega arith)
    | inr e ↦ rw e (omega arith)
  ]
  spread-total_days t (w ∷ ws) = rw (spread-total_days t ws) (elim (Bool-cases (is_half_day t)) [
    | inl e ↦ rw e (omega arith)
    | inr e ↦ rw e (omega arith)
  ])

module _ (holidays : List Date) (per_week : ℕ) (first last : Date) (vf : IsValid first)
    (vl : IsValid last) (second_year : 1 < first.year) where
  first_year : (y : ℕ) (d : Date) → d ≡ date y 4 1 → IsValid d → 1 ≤ y
  first_year y d e v = (subst IsValid e v).year_pos

  window_loop-past :
      (fuel : ℕ) (day : Date) → date_leb day last ≡ false → window_loop fuel day last ≡ []
  unfolding window_loop
  window_loop-past zero day h = refl
  window_loop-past (suc fuel) day h = rw h refl

  next_opens-year :
      (d : Date) (y : ℕ) → next_day d ≡ date (y + 1) 4 1 → 1 ≤ y → 1 < (next_day d).year
  next_opens-year d y e h = rw e (omega arith)

  next_opens :
      (d : Date) (y : ℕ)
      → next_day d ≡ date (y + 1) 4 1
      → IsValid (next_day d)
      → to_ordinal first ≤ to_ordinal (next_day d)
      → date_max (leave_year_window (next_day d)).0 first ≡ next_day d
  next_opens d y e v le =
      let opens : (leave_year_window (next_day d)).0 ≡ next_day d = rw e (opening-window (y + 1)) in
      rw opens (date_max_fst (next_day d) first v vf le)

  -- From a day on which the clipped window of its leave year begins.
  total_days-window_loop :
      (fuel : ℕ) (day : Date)
      → IsValid day
      → 1 < day.year
      → to_ordinal first ≤ to_ordinal day
      → to_ordinal day ≤ to_ordinal last
      → to_ordinal last < fuel + to_ordinal day
      → date_max (leave_year_window day).0 first ≡ day
      → total_days holidays per_week first last (window_loop fuel day last)
        ≡ working_days_between day last holidays per_week
  unfolding window_loop
  total_days-window_loop zero day v hy from le enough begins = absurd (omega arith)
  total_days-window_loop (suc fuel) day v hy from le enough begins =
      let year = leave_year_window-IsLeaveYear day v hy in
      let w = leave_year_window day in
      let after = next_day-IsValid w.1 year.closes_valid in
      let ordinal = to_ordinal-next_day w.1 year.closes_valid in
      let year_pos : 1 ≤ year.year = first_year year.year w.0 year.opens year.opens_valid in
      rw (date_leb-true day last v vl le) (
        rw begins (elim (le_or_lt (to_ordinal last) (to_ordinal w.1)) [
          | inl inside ↦
              rw
                (
                  date_min_snd w.1 last year.closes_valid vl inside,
                  window_loop-past fuel (next_day w.1)
                      (date_leb-false (next_day w.1) last after vl (omega arith)),
                )
                (omega arith)
          | inr beyond ↦
              rw
                (
                  date_min_fst w.1 last year.closes_valid vl (omega arith),
                  total_days-window_loop fuel (next_day w.1) after
                      (next_opens-year w.1 year.year year.closes year_pos)
                      (omega (arith, year.ends)) (omega arith) (omega (arith, year.ends))
                      (next_opens w.1 year.year year.closes after (omega (arith, year.ends))),
                )
                (sym (
                  working_days_between_split holidays per_week day w.1 last v year.closes_valid vl
                    year.ends beyond))
        ]))

  -- The leave years of a request cut it into parts that together have its working days: what a
  -- leave spends in them adds up to what it spends altogether. The request does not begin in year 1.
  pub days_in_windows-total :
      (t : LeaveType)
      → to_ordinal first ≤ to_ordinal last
      → spread holidays per_week first last t (leave_year_windows first last)
        ≡ working_days_between first last holidays per_week * leave_weight t
  unfolding leave_year_windows
  days_in_windows-total t le =
      let opens = leave_year_window-IsLeaveYear first vf second_year in
      spread-total_days holidays per_week first last t (leave_year_windows first last)
      ∙ ap (λ n. n * leave_weight t)
          (total_days-window_loop (to_ordinal last + 1 - to_ordinal first) first vf second_year
            (omega arith) le (omega arith)
            (date_max_snd (leave_year_window first).0 first opens.opens_valid vf opens.starts))
