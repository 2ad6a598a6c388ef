-- ===== src/Tenure/Bands.antt =====
-- The tenure band flips on the dates that `probation_end` shows: app/core/tenure.py.
use native.Mathlib.Nat.{le_of_lt, mul-le-mul_right}
use native.Mathlib.Decide.{dec_lt}
use avora_be.Prelude.{
  ℕ, zero, suc, refl, ◌≢◌, ◌-◌, ◌*◌, ◌≤◌, ◌<◌, ◌≡◌, ◌↔◌, arith, true, false, Bool-cases, inl, inr,
  ap,
}
use avora_be.Calendar.{Date, IsValid, to_ordinal, date_eq}
use avora_be.Calendar.Order.{date_ltb_iff, to_ordinal_inj}
use avora_be.Tenure.{
  TenureStatus, probation, tenured, add_months, months_to_reach, months_completed,
  anniversaries_reached, probation_end, tenure_status, accrued_months, accrued_units,
  months_in_year,
}
use avora_be.Tenure.Months.{
  fields_of_le, add_months-IsValid, add_months_mono, months_to_reach_fewest,
}

pub date_eq_sound : (a b : Date) → date_eq a b ≡ true → a ≡ b
date_eq_sound a b h = ground arith

date_eq_complete : (a b : Date) → a ≡ b → date_eq a b ≡ true
date_eq_complete a b e = ground arith

module _ (start today : Date) (v : IsValid start) (w : IsValid today) where
  pub add_months_le :
      (n m : ℕ) → n ≤ m → to_ordinal (add_months start n) ≤ to_ordinal (add_months start m)
  add_months_le n m le = elim (dec_lt n m) [
    | yes lt ↦ omega (arith, add_months_mono start v n m lt)
    | no ge ↦
        let e : n ≡ m = omega arith in
        omega (arith, ap (λ (k : ℕ). to_ordinal (add_months start k)) e)
  ]

  add_months_cancel_le :
      (n m : ℕ) → to_ordinal (add_months start n) ≤ to_ordinal (add_months start m) → n ≤ m
  add_months_cancel_le n m le = elim (dec_lt m n) [
    | yes lt ↦ absurd (omega (arith, add_months_mono start v m n lt))
    | no ge ↦ omega arith
  ]

  abbrev reached : ℕ
  reached = months_to_reach start today

  strictly_after :
      date_eq (add_months start reached) today ≡ false
      → to_ordinal today < to_ordinal (add_months start reached)
  strictly_after diff = elim (dec_lt (to_ordinal today) (to_ordinal (add_months start reached))) [
    | yes lt ↦ lt
    | no ge ↦
        let e =
          to_ordinal_inj (add_months start reached) today (add_months-IsValid start reached v) w
            (omega (arith, (months_to_reach_fewest start v today w).0)) in
        cc (date_eq_complete _ _ e)
  ]

  -- At least `k` anniversaries are reached just when the `k`-th is not after today.
  pub anniversaries_reached_iff :
      (k : ℕ)
      → 1 ≤ k
      → (k ≤ anniversaries_reached start today)
        ↔ (to_ordinal (add_months start k) ≤ to_ordinal today)
  unfolding anniversaries_reached
  anniversaries_reached_iff k h =
      let few = (months_to_reach_fewest start v today w).1 in
      elim (Bool-cases (date_eq (add_months start reached) today)) [
        | inl same ↦
            let e : to_ordinal (add_months start reached) ≡ to_ordinal today =
              ap to_ordinal (date_eq_sound (add_months start reached) today same) in
            rw same (
              λ le. omega (arith, e, add_months_le k reached le),
              λ le. add_months_cancel_le k reached (omega (arith, e)),
            )
        | inr diff ↦
            let after = strictly_after diff in
            rw diff (λ le. le_of_lt (few k (omega arith)), λ le. not_reached k h after le)
      ]
    where
      not_reached :
          (k : ℕ)
          → 1 ≤ k
          → to_ordinal today < to_ordinal (add_months start reached)
          → to_ordinal (add_months start k) ≤ to_ordinal today
          → k ≤ reached - 1
      not_reached k h after le = elim (dec_lt k reached) [
        | yes lt ↦ omega arith
        | no ge ↦ absurd (omega (arith, add_months_le reached k (omega arith)))
      ]

-- The band by the two dates: before the end of probation and the first anniversary of the hire
-- date it is probation; from the first anniversary on tenured; in between confirmed. The hire date
-- is not in the future, or the probation lasts a month at least.
pub record Band (hire today : Date) (months : ℕ) (s : TenureStatus) : Type 0 where
  pub on_probation : (s ≡ probation) ↔ (
      (to_ordinal today < to_ordinal (probation_end hire months))
      × (to_ordinal today < to_ordinal (add_months hire months_in_year)))
  pub is_tenured : (s ≡ tenured) ↔ (to_ordinal (add_months hire months_in_year) ≤ to_ordinal today)

-- For a probation of at least a month: the status is tenured exactly from the first anniversary of
-- the hire date on, and probation exactly before both that day and the end of the probation.
pub tenure_status-Band :
    (hire today : Date) (months : ℕ)
    → IsValid hire
    → IsValid today
    → 1 ≤ months
    → Band hire today months (tenure_status hire today months)
unfolding tenure_status probation_end
tenure_status-Band hire today months v w h =
    let year = anniversaries_reached_iff hire today v w 12 (omega arith) in
    let own = anniversaries_reached_iff hire today v w months h in
    record {
      on_probation = (λ e. ground (arith, year, own), λ e. ground (arith, year, own));
      is_tenured = (λ e. ground (arith, year, own), λ e. ground (arith, year, own));
    }

-- `probation_end` counts months as `add_months` does.
pub probation_end_lem :
    (hire : Date) (months : ℕ) → probation_end hire months ≡ add_months hire months
unfolding probation_end
probation_end_lem hire months = refl

-- From the end of a probation on nobody is on it.
pub tenure_status_past_end :
    (hire today : Date) (months : ℕ)
    → IsValid hire
    → IsValid today
    → to_ordinal (probation_end hire months) ≤ to_ordinal today
    → tenure_status hire today months ≢ probation
unfolding tenure_status probation_end
tenure_status_past_end hire today zero v w le = λ e. absurd (ground arith)
tenure_status_past_end hire today (suc n) v w le = λ e.
    let is = (tenure_status-Band hire today (suc n) v w (omega arith)).on_probation.0 e in
    omega (arith, is, le)

-- A probation longer than a year ends early: from the first anniversary on the status is tenured,
-- also while `probation_end` lies ahead.
pub tenured_within_probation :
    (hire today : Date) (months : ℕ)
    → IsValid hire
    → IsValid today
    → to_ordinal (add_months hire months_in_year) ≤ to_ordinal today
    → to_ordinal today < to_ordinal (probation_end hire months)
    → (12 < months) × (tenure_status hire today months ≡ tenured)
unfolding tenure_status probation_end
tenured_within_probation hire today months v w le lt = (
  elim (dec_lt 12 months) [
    | yes long ↦ long
    | no short ↦ absurd (omega (arith, add_months_le hire today v w months 12 (omega arith)))
  ],
  ground (arith, anniversaries_reached_iff hire today v w 12 (omega arith)),
)

months_completed_mono :
    (from today later : Date)
    → IsValid from
    → IsValid today
    → IsValid later
    → to_ordinal today ≤ to_ordinal later
    → months_completed from today ≤ months_completed from later
unfolding months_completed
months_completed_mono from today later v w u le = ground (
  arith,
  date_ltb_iff from today v w,
  date_ltb_iff from later v u,
  fields_of_le today later w u le,
)

accrued_months_mono :
    (from today later : Date)
    → IsValid from
    → IsValid today
    → IsValid later
    → to_ordinal today ≤ to_ordinal later
    → (accrued_months from today ≤ accrued_months from later)
      × (accrued_months from later ≤ months_in_year)
unfolding accrued_months
accrued_months_mono from today later v w u le = ground (
  arith,
  date_ltb_iff today from w v,
  date_ltb_iff later from u v,
  months_completed_mono from today later v w u le,
)

-- A later day has no less leave accrued, and no day more than a year's worth.
pub accrued_units_bounds :
    (from today later : Date) (per_month : ℕ)
    → IsValid from
    → IsValid today
    → IsValid later
    → to_ordinal today ≤ to_ordinal later
    → (accrued_units from today per_month ≤ accrued_units from later per_month)
      × (accrued_units from later per_month ≤ months_in_year * per_month)
unfolding accrued_units
accrued_units_bounds from today later per_month v w u le =
    let (up, top) = accrued_months_mono from today later v w u le in
    (mul-le-mul_right per_month up, mul-le-mul_right per_month top)
