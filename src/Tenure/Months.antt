-- ===== src/Tenure/Months.antt =====
-- Whole months after a date: app/core/tenure.py, `add_months` and `months_to_reach`.
use native.Mathlib.Numerals.{add-one}
use native.Mathlib.Decide.{dec_lt}
use avora_be.Prelude.{
  ℕ, zero, suc, ◌+◌, ◌-◌, ◌*◌, ◌/◌, ◌%◌, ◌≤◌, ◌<◌, min, ◌≡◌, arith, ◌==◌, if◌then◌else◌, true,
  Bool-cases, inl, inr, refl, ap, ◌↔◌, ◌⊎◌,
}
use avora_be.Calendar.{Date, date, IsValid, month_length, to_ordinal, date_ltb}
use avora_be.Calendar.Months.{days_before_month-suc, month_length_bounds}
use avora_be.Calendar.Order.{date_ltb_iff}
use avora_be.Tenure.{add_months, month_gap, step_up, step_down, months_to_reach}

abbrev pub month_index : Date → ℕ
month_index d = d.year * 12 + d.month

-- What `add_months` returns.
pub record Moved (start : Date) (n : ℕ) (d : Date) : Type 0 where
  pub index : month_index d ≡ month_index start + n
  pub month_in : (1 ≤ d.month) × (d.month ≤ 12)
  pub day_is : d.day ≡ min start.day (month_length d.year d.month)

month_span :
    (y m : ℕ) → 1 ≤ m → to_ordinal (date y (m + 1) 1) - to_ordinal (date y m 1) ≡ month_length y m
unfolding to_ordinal
month_span y m h = rw (add-one m) (omega (arith, days_before_month-suc y m h))

december : (y : ℕ) → month_length y 12 ≡ 31
unfolding month_length
december y = refl

last_day :
    (y m : ℕ)
    → 1 ≤ m
    → (if m == 12 then 31 else to_ordinal (date y (m + 1) 1) - to_ordinal (date y m 1))
      ≡ month_length y m
last_day y m h = ground (arith, month_span y m h, december y, λ (e : m ≡ 12). ap (month_length y) e)

-- The result lies the given number of months on, at the start's day or the month's last.
pub add_months-Moved : (start : Date) (n : ℕ) → IsValid start → Moved start n (add_months start n)
unfolding add_months
add_months-Moved start n v =
    let total = start.month - 1 + n in
    record {
      index = omega (arith, v.month_pos);
      month_in = omega arith;
      day_is =
          ap (min start.day) (last_day (start.year + total / 12) (total % 12 + 1) (omega arith));
    }

pub add_months-IsValid : (start : Date) (n : ℕ) → IsValid start → IsValid (add_months start n)
add_months-IsValid start n v =
    let d = add_months start n in
    let m = add_months-Moved start n v in
    omega (arith, m.index, m.month_in, m.day_is, month_length_bounds d.year d.month, v)

-- A date in an earlier month comes first.
pub earlier_index :
    (a b : Date)
    → IsValid a
    → IsValid b
    → month_index a < month_index b
    → to_ordinal a < to_ordinal b
earlier_index a b va vb h = (date_ltb_iff a b va vb).0 (unfold date_ltb in ground (arith, va, vb))

-- A date that is not later lies in an earlier month, or in the same one on no later day.
pub fields_of_le :
    (a b : Date)
    → IsValid a
    → IsValid b
    → to_ordinal a ≤ to_ordinal b
    → (month_index a < month_index b) ⊎ (month_index a ≡ month_index b) × (a.day ≤ b.day)
unfolding date_ltb
fields_of_le a b va vb le = elim (Bool-cases (date_ltb b a)) [
  | inl later ↦ absurd (omega (arith, (date_ltb_iff b a vb va).0 later))
  | inr ordered ↦ ground (arith, va, vb)
]

module _ (start : Date) (v : IsValid start) where
  pub add_months_mono :
      (n m : ℕ) → n < m → to_ordinal (add_months start n) < to_ordinal (add_months start m)
  add_months_mono n m h =
      earlier_index _ _ (add_months-IsValid start n v) (add_months-IsValid start m v)
        (omega (arith, (add_months-Moved start n v).index, (add_months-Moved start m v).index))

  module _ (target : Date) (w : IsValid target) where
    before_iff :
        (n : ℕ)
        → (date_ltb (add_months start n) target ≡ true)
          ↔ (to_ordinal (add_months start n) < to_ordinal target)
    before_iff n = date_ltb_iff _ target (add_months-IsValid start n v) w

    past_gap : to_ordinal target < to_ordinal (add_months start (month_gap start target + 1))
    past_gap =
        earlier_index target _ w (add_months-IsValid start _ v)
          (omega (arith, (add_months-Moved start (month_gap start target + 1) v).index))

    -- Two rounds are fuel enough for the first loop.
    step_up-reaches :
        to_ordinal target
        ≤ to_ordinal (add_months start (step_up 2 start target (month_gap start target)))
    unfolding step_up
    step_up-reaches = ground (
      arith,
      past_gap,
      before_iff (month_gap start target),
      before_iff (month_gap start target + 1),
    )

    below :
        (n k : ℕ)
        → date_ltb (add_months start n) target ≡ true
        → k ≤ n
        → to_ordinal (add_months start k) < to_ordinal target
    below n k short le = elim (dec_lt k n) [
      | yes lt ↦ omega (arith, add_months_mono k n lt, (before_iff n).0 short)
      | no ge ↦
          let e : k ≡ n = omega arith in
          omega (arith, (before_iff n).0 short, ap (λ (m : ℕ). to_ordinal (add_months start m)) e)
    ]

    step_down-reaches :
        (n : ℕ)
        → to_ordinal target ≤ to_ordinal (add_months start n)
        → (to_ordinal target ≤ to_ordinal (add_months start (step_down start target n)))
          × ((k : ℕ)
              → k < step_down start target n
              → to_ordinal (add_months start k) < to_ordinal target)
    unfolding step_down
    step_down-reaches zero h = (h, λ k lt. absurd (omega arith))
    step_down-reaches (suc n) h = elim (Bool-cases (date_ltb (add_months start n) target)) [
      | inl short ↦ rw short (h, λ k lt. below n k short (omega arith))
      | inr enough ↦ rw enough (step_down-reaches n (ground (arith, before_iff n)))
    ]

    -- `months_to_reach` is the fewest months whose anniversary is not before the target.
    pub months_to_reach_fewest :
        (to_ordinal target ≤ to_ordinal (add_months start (months_to_reach start target)))
        × ((k : ℕ)
            → k < months_to_reach start target
            → to_ordinal (add_months start k) < to_ordinal target)
    unfolding months_to_reach
    months_to_reach_fewest = step_down-reaches _ step_up-reaches
