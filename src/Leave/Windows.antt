-- ===== src/Leave/Windows.antt =====
-- Which leave years `_leave_year_windows` of app/services/leave_service.py visits.
use avora_be.Prelude.{
  ℕ, zero, suc, ◌+◌, ◌-◌, ◌≤◌, ◌<◌, ◌≡◌, sym, subst, false, Bool, any, inl, inr, arith, le_or_lt,
}
use avora_be.Calendar.{Date, IsValid, to_ordinal, next_day}
use avora_be.Calendar.Order.{date_leb-true}
use avora_be.Calendar.Days.{next_day-IsValid, to_ordinal-next_day}
use avora_be.Tenure.{leave_year_window}
use avora_be.Tenure.LeaveYear.{IsLeaveYear, leave_year_window-IsLeaveYear, leave_year_window_unique}
use avora_be.Leave.Balance.{leave_year_windows, window_loop}

opens_later : {d : Date} (w : Date × Date) → IsLeaveYear d w → 1 < (next_day w.1).year
opens_later w y =
    let pos : 1 ≤ y.year = (subst IsValid y.opens y.opens_valid).year_pos in
    rw y.closes (omega (arith, pos))

module _ (P : Date × Date → Bool) (last d : Date) (vl : IsValid last) (vd : IsValid d)
    (hd : 1 < d.year) (within : to_ordinal d ≤ to_ordinal last) where
  any-window_loop :
      (fuel : ℕ) (day : Date)
      → IsValid day
      → 1 < day.year
      → to_ordinal day ≤ to_ordinal d
      → to_ordinal last < fuel + to_ordinal day
      → any P (window_loop fuel day last) ≡ false
      → P (leave_year_window d) ≡ false
  unfolding window_loop
  any-window_loop zero day v hy from enough h = absurd (omega (arith, within))
  any-window_loop (suc fuel) day v hy from enough h =
      let year = leave_year_window-IsLeaveYear day v hy in
      let w = leave_year_window day in
      let after = next_day-IsValid w.1 year.closes_valid in
      let ordinal = to_ordinal-next_day w.1 year.closes_valid in
      let visited = date_leb-true day last v vl (omega (arith, within)) in
      elim (le_or_lt (to_ordinal d) (to_ordinal w.1)) [
        | inl inside ↦
            let is : leave_year_window d ≡ w =
              leave_year_window_unique day d v vd hy (omega (arith, year.starts)) inside in
            subst (λ x. P x ≡ false) (sym is) (ground (arith, visited, h))
        | inr beyond ↦
            any-window_loop fuel (next_day w.1) after (opens_later w year) (omega arith)
              (omega (arith, year.ends)) (ground (arith, visited, h))
      ]

-- A test that fails at all leave years of a request fails at the leave year of each of its days.
pub any-leave_year_windows :
    (P : Date × Date → Bool) (first last d : Date)
    → IsValid first
    → IsValid last
    → IsValid d
    → 1 < first.year
    → 1 < d.year
    → to_ordinal first ≤ to_ordinal d
    → to_ordinal d ≤ to_ordinal last
    → any P (leave_year_windows first last) ≡ false
    → P (leave_year_window d) ≡ false
unfolding leave_year_windows
any-leave_year_windows P first last d vf vl vd hf hd from within h =
    any-window_loop P last d vl vd hd within (to_ordinal last + 1 - to_ordinal first) first vf hf
      from (omega arith) h
