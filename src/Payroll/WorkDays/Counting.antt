-- ===== src/Payroll/WorkDays/Counting.antt =====
-- `working_days_between` counts the working days of a range: app/core/payroll.py.
use native.Mathlib.Nat.{zero-add}
use avora_be.Prelude.{
  ℕ, zero, suc, ◌+◌, ◌-◌, ◌≤◌, ◌<◌, ◌≡◌, ◌∙◌, ap, refl, List, [], length, arith, Bool-cases, inl,
  inr, if◌then◌else◌,
}
use avora_be.Calendar.{Date, date, IsValid, to_ordinal, date_ltb, next_day, month_length}
use avora_be.Calendar.Months.{month_length_bounds}
use avora_be.Calendar.Order.{date_ltb_iff, to_ordinal_inj}
use avora_be.Calendar.Days.{next_day-IsValid, to_ordinal-next_day}
use avora_be.Payroll.WorkDays.{
  counts, count_loop, working_days_between, month_days, weekdays_in_month,
}

module _ (holidays : List Date) (per_week : ℕ) where
  -- How many of the `n` days from `d` on are working days and no holidays.
  unfoldable pub count_from : Date → ℕ → ℕ
  count_from d zero = 0
  count_from d (suc n) = (if counts holidays per_week d then 1 else 0) + count_from (next_day d) n

  -- The day `n` days after `d`.
  abbrev pub later : Date → ℕ → Date
  later d zero = d
  later d (suc n) = later (next_day d) n

  pub count_from-add :
      (d : Date) (n m : ℕ) → count_from d (n + m) ≡ count_from d n + count_from (later d n) m
  unfolding count_from
  count_from-add d zero m = let e : 0 + m ≡ m = omega arith in omega (arith, ap (count_from d) e)
  count_from-add d (suc n) m =
      let e : suc n + m ≡ suc (n + m) = omega arith in
      omega (arith, ap (count_from d) e, count_from-add (next_day d) n m)

  pub later-lem :
      (d : Date) (n : ℕ)
      → IsValid d
      → IsValid (later d n) × (to_ordinal (later d n) ≡ to_ordinal d + n)
  later-lem d zero v = (v, omega arith)
  later-lem d (suc n) v =
      let (valid, at) = later-lem (next_day d) n (next_day-IsValid d v) in
      (valid, omega (arith, at, to_ordinal-next_day d v))

  -- With fuel for the days of the range the loop runs to its end and adds their count.
  count_loop-count_from :
      (fuel total : ℕ) (current end : Date)
      → IsValid current
      → IsValid end
      → to_ordinal current + fuel ≡ suc (to_ordinal end)
      → count_loop fuel current end holidays per_week total ≡ total + count_from current fuel
  unfolding count_loop count_from
  count_loop-count_from zero total current end vc ve e = omega arith
  count_loop-count_from (suc fuel) total current end vc ve e =
      elim (Bool-cases (date_ltb end current)) [
        | inl past ↦ absurd (omega (arith, (date_ltb_iff end current ve vc).0 past))
        | inr inside ↦ rw inside (
            ground (
              arith,
              count_loop-count_from fuel
                  (if counts holidays per_week current then total + 1 else total) (next_day current)
                  end (next_day-IsValid current vc) ve,
              to_ordinal-next_day current vc,
            ))
      ]

  -- Over a range that is not inverted, `working_days_between` is the count of its days.
  pub working_days_between-count_from :
      (start end : Date)
      → IsValid start
      → IsValid end
      → to_ordinal start ≤ to_ordinal end
      → working_days_between start end holidays per_week
        ≡ count_from start (to_ordinal end + 1 - to_ordinal start)
  unfolding working_days_between
  working_days_between-count_from start end vs ve le = elim (Bool-cases (date_ltb end start)) [
    | inl inverted ↦ absurd (omega (arith, (date_ltb_iff end start ve vs).0 inverted))
    | inr ordered ↦ rw ordered (
        count_loop-count_from (to_ordinal end + 1 - to_ordinal start) 0 start end vs ve
          (omega arith)
        ∙ zero-add _)
  ]

  -- A range may be cut after any of its days: the working days of the two parts add up.
  pub working_days_between_split :
      (start mid end : Date)
      → IsValid start
      → IsValid mid
      → IsValid end
      → to_ordinal start ≤ to_ordinal mid
      → to_ordinal mid < to_ordinal end
      → working_days_between start end holidays per_week
        ≡ working_days_between start mid holidays per_week
          + working_days_between (next_day mid) end holidays per_week
  working_days_between_split start mid end vs vm ve h k =
      let n = to_ordinal mid + 1 - to_ordinal start in
      let m = to_ordinal end + 1 - to_ordinal (next_day mid) in
      let vn = next_day-IsValid mid vm in
      let on = to_ordinal-next_day mid vm in
      let (vl, at) = later-lem start n vs in
      let same : later start n ≡ next_day mid = to_ordinal_inj _ _ vl vn (omega arith) in
      let e : to_ordinal end + 1 - to_ordinal start ≡ n + m = omega arith in
      rw (
        working_days_between-count_from start end vs ve (omega arith),
        working_days_between-count_from start mid vs vm h,
        working_days_between-count_from (next_day mid) end vn ve (omega arith),
        e,
        count_from-add start n m,
        same,
      )

  count_from-le : (d : Date) (n : ℕ) → count_from d n ≤ n
  unfolding count_from
  count_from-le d zero = omega arith
  count_from-le d (suc n) = ground (arith, count_from-le (next_day d) n)

  -- A range holds no more working days than days, and none where it is inverted.
  pub working_days_between-le :
      (start end : Date)
      → IsValid start
      → IsValid end
      → working_days_between start end holidays per_week ≤ to_ordinal end + 1 - to_ordinal start
  unfolding working_days_between
  working_days_between-le start end vs ve = elim (Bool-cases (date_ltb end start)) [
    | inl inverted ↦ rw inverted (omega arith)
    | inr ordered ↦
        let le : to_ordinal start ≤ to_ordinal end =
          ground (arith, (date_ltb_iff end start ve vs).1) in
        let n = to_ordinal end + 1 - to_ordinal start in
        rw ordered (
          omega
            (arith, count_loop-count_from n 0 start end vs ve (omega arith), count_from-le start n))
  ]

module _ (year month per_week : ℕ) where
  step_in_month :
      (day : ℕ)
      → day < month_length year month
      → next_day (date year month day) ≡ date year month (day + 1)
  unfolding next_day
  step_in_month day h = ground arith

  month_days-count_from :
      (left day : ℕ)
      → day + left ≡ suc (month_length year month)
      → length (month_days year month left day per_week)
        ≡ count_from [] per_week (date year month day) left
  unfolding month_days count_from
  month_days-count_from zero day e = refl
  month_days-count_from (suc zero) day e = ground arith
  month_days-count_from (suc (suc left)) day e =
      ground (arith, step_in_month day, month_days-count_from (suc left) (day + 1))

  -- The list of a month's working days is as long as the count over the whole month, with no
  -- holidays.
  pub weekdays_in_month-working_days_between :
      1 ≤ year
      → 1 ≤ month
      → month ≤ 12
      → length (weekdays_in_month year month per_week)
        ≡ working_days_between
            (date year month 1)
            (date year month (month_length year month))
            []
            per_week
  unfolding weekdays_in_month
  weekdays_in_month-working_days_between hy hm hm' =
      let len = month_length year month in
      let room = month_length_bounds year month in
      let first : IsValid (date year month 1) = omega (arith, room) in
      let last : IsValid (date year month len) = omega (arith, room) in
      let e : to_ordinal (date year month len) + 1 - to_ordinal (date year month 1) ≡ len =
        unfold to_ordinal in omega (arith, room) in
      rw
        (
          working_days_between-count_from [] per_week _ _ first last
              (unfold to_ordinal in omega (arith, room)),
          e,
        )
        (month_days-count_from len 1 (omega arith))
