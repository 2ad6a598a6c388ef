-- ===== src/Payroll/WorkDays/Weeks.antt =====
-- Weeks, Saturdays and the days on the payroll: app/core/payroll.py.
use avora_be.Prelude.{
  ℕ, zero, suc, ◌+◌, ◌-◌, ◌%◌, ◌≤◌, ◌<◌, max, ◌≡◌, ◌∙◌, inl, inr, Bool-cases, ◌≢◌, ◌↔◌, ◌⊎◌, refl,
  true, some, [], arith, ltb, ◌==◌, ==_iff, if◌then◌else◌, all_below, all_below_sound,
}
use avora_be.Calendar.{Date, date, IsValid, to_ordinal, weekday, next_day, date_ltb, month_length}
use avora_be.Calendar.Days.{next_day-IsValid, weekday-next_day}
use avora_be.Calendar.Months.{month_length_bounds}
use avora_be.Calendar.Order.{date_ltb_iff}
use avora_be.Payroll.WorkDays.{
  is_working_day, is_working_saturday, policy_effective_date, payroll_window, payable_base_days,
  days_in_month, counts,
}
use avora_be.Payroll.WorkDays.Counting.{count_from}

-- In a week of other than six days the weekday alone decides.
plain_week : (d : Date) (w : ℕ) → w ≢ 6 → counts [] w d ≡ ltb (weekday d) w
unfolding is_working_day
plain_week d w h = ground arith

-- The working days among `n` days from weekday `k` on.
abbrev tally : ℕ → ℕ → ℕ → ℕ
tally w k zero = 0
tally w k (suc n) = (if ltb k w then 1 else 0) + tally w ((k + 1) % 7) n

tally_table : all_below 8 (λ w. all_below 7 (λ k. tally w k 7 == w)) ≡ true
unfolding all_below
tally_table = refl

count_from-tally :
    (w n : ℕ) (d : Date) → w ≢ 6 → IsValid d → count_from [] w d n ≡ tally w (weekday d) n
unfolding count_from
count_from-tally w zero d h v = refl
count_from-tally w (suc n) d h v = rw (
  plain_week d w h,
  count_from-tally w n (next_day d) h (next_day-IsValid d v),
  weekday-next_day d v,
)

-- Without holidays any seven days in a row hold as many working days as the week has, for a week
-- of seven days or fewer but not six, whose Saturdays alternate.
pub count_from-week : (w : ℕ) (d : Date) → w ≤ 7 → w ≢ 6 → IsValid d → count_from [] w d 7 ≡ w
unfolding weekday
count_from-week w d le h v =
    let row =
      all_below_sound 8 (λ x. all_below 7 (λ k. tally x k 7 == x)) w tally_table (omega arith) in
    let cell = all_below_sound 7 (λ k. tally w k 7 == w) (weekday d) row (omega arith) in
    count_from-tally w 7 d h v ∙ (==_iff _ w).0 cell

-- In a six-day week a day is worked just when it is a weekday, or a Saturday that falls before
-- the policy, or outside the second and the fourth seven days of its month.
pub is_working_day-six :
    (d : Date)
    → (is_working_day d 6 ≡ true) ↔ (
        (weekday d < 5)
        ⊎ (weekday d ≡ 5)
          × ((date_ltb d policy_effective_date ≡ true)
              ⊎ ((d.day ≤ 7) ⊎ ((15 ≤ d.day) × (d.day ≤ 21) ⊎ (29 ≤ d.day)))))
unfolding is_working_day is_working_saturday
is_working_day-six d = ground arith

month_end :
    (y m : ℕ)
    → to_ordinal (date y m (month_length y m)) + 1 ≡ to_ordinal (date y m 1) + month_length y m
unfolding to_ordinal
month_end y m = omega arith

-- The days on the payroll are those of the month from the hire date on, or all of them.
pub payable_base_days_lem :
    (year month : ℕ) (hire : Date)
    → 1 ≤ year
    → 1 ≤ month
    → month ≤ 12
    → IsValid hire
    → payable_base_days year month (some hire)
      ≡ to_ordinal (date year month 1)
        + days_in_month year month
        - max (to_ordinal (date year month 1)) (to_ordinal hire)
unfolding payable_base_days payroll_window days_in_month
payable_base_days_lem year month hire hy hm hm' v =
    let len = month_length year month in
    let room = month_length_bounds year month in
    let first : IsValid (date year month 1) = omega (arith, room) in
    let last : IsValid (date year month len) = omega (arith, room) in
    let at : to_ordinal (date year month len) + 1 ≡ to_ordinal (date year month 1) + len =
      month_end year month in
    elim (Bool-cases (date_ltb (date year month 1) hire)) [
      | inl joined ↦ rw joined (elim (Bool-cases (date_ltb (date year month len) hire)) [
        | inl later ↦ rw later (omega (arith, at, (date_ltb_iff _ hire last v).0 later))
        | inr inside ↦ rw inside (
            ground (
              arith,
              at,
              (date_ltb_iff (date year month len) hire last v).1,
              (date_ltb_iff (date year month 1) hire first v).0,
            ))
      ])
      | inr before ↦ rw before (
          ground (
            arith,
            at,
            (date_ltb_iff (date year month 1) hire first v).1,
            (date_ltb_iff (date year month len) (date year month 1) last first).0,
          ))
    ]
