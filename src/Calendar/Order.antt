-- ===== src/Calendar/Order.antt =====
-- Dates in calendar order have ordinals in order.
use avora_be.Prelude.{
  ℕ, suc, ◌+◌, ◌≤◌, ◌<◌, ◌≡◌, ◌↔◌, refl, inl, inr, Bool-cases, true, false, arith,
}
use avora_be.Calendar.{
  Date, IsValid, to_ordinal, date_ltb, date_min, date_max, date_leb, days_before_year,
  days_before_month,
}
use avora_be.Calendar.Months.{
  days_before_year-suc, days_before_month-suc, twelve_months, months_mono, years_mono,
}

-- The place of a day within its year.
abbrev pub day_of_year : Date → ℕ
day_of_year d = days_before_month d.year d.month + d.day

pub year_end :
    (d : Date) → IsValid d → days_before_year d.year + day_of_year d ≤ days_before_year (suc d.year)
year_end d v = omega (
  arith,
  days_before_year-suc d.year v.year_pos,
  days_before_month-suc d.year d.month v.month_pos,
  months_mono d.year (suc d.month) 13 (omega arith) (omega (arith, v.month_top)),
  twelve_months d.year,
  v.day_top,
)

-- An earlier date, spelled out by its fields, has the smaller ordinal.
earlier_year : (a b : Date) → IsValid a → IsValid b → a.year < b.year → to_ordinal a < to_ordinal b
unfolding to_ordinal
earlier_year a b va vb lt =
    omega (arith, year_end a va, years_mono (suc a.year) b.year (omega arith) lt, vb.day_pos)

earlier_month :
    (a b : Date)
    → IsValid a
    → IsValid b
    → a.year ≡ b.year
    → a.month < b.month
    → to_ordinal a < to_ordinal b
unfolding to_ordinal
earlier_month a b va vb e lt = rw (← e) (
    omega (
      arith,
      days_before_month-suc a.year a.month va.month_pos,
      months_mono a.year (suc a.month) b.month (omega arith) lt,
      va.day_top,
      vb.day_pos,
    ))

earlier_day :
    (a b : Date) → a.year ≡ b.year → a.month ≡ b.month → a.day < b.day → to_ordinal a < to_ordinal b
unfolding to_ordinal
earlier_day a b ey em lt = rw (← ey, ← em) (omega arith)

ltb_sound : (a b : Date) → IsValid a → IsValid b → date_ltb a b ≡ true → to_ordinal a < to_ordinal b
unfolding date_ltb
ltb_sound a b va vb h =
    ground (arith, earlier_year a b va vb, earlier_month a b va vb, earlier_day a b)

same_ordinal :
    (a b : Date) → a.year ≡ b.year → a.month ≡ b.month → a.day ≡ b.day → to_ordinal a ≡ to_ordinal b
unfolding to_ordinal
same_ordinal a b ey em ed = rw (ey, em, ed)

not_ltb : (a b : Date) → IsValid a → IsValid b → date_ltb a b ≡ false → to_ordinal b ≤ to_ordinal a
unfolding date_ltb
not_ltb a b va vb h =
    ground
      (arith, earlier_year b a vb va, earlier_month b a vb va, earlier_day b a, same_ordinal a b)

-- The order of valid dates is that of their ordinals.
pub date_ltb_iff :
    (a b : Date) → IsValid a → IsValid b → (date_ltb a b ≡ true) ↔ (to_ordinal a < to_ordinal b)
date_ltb_iff a b va vb = (ltb_sound a b va vb, λ lt. ground (arith, not_ltb a b va vb))

-- Two valid dates with one ordinal are equal.
pub to_ordinal_inj : (a b : Date) → IsValid a → IsValid b → to_ordinal a ≡ to_ordinal b → a ≡ b
to_ordinal_inj a b va vb e = ground (
  arith,
  earlier_year a b va vb,
  earlier_year b a vb va,
  earlier_month a b va vb,
  earlier_month b a vb va,
  earlier_day a b,
  earlier_day b a,
)

-- The earlier of two dates, by their ordinals.
pub date_min_fst :
    (a b : Date) → IsValid a → IsValid b → to_ordinal a ≤ to_ordinal b → date_min a b ≡ a
date_min_fst a b va vb h = elim (Bool-cases (date_ltb b a)) [
  | inl e ↦ absurd (omega (arith, (date_ltb_iff b a vb va).0 e))
  | inr e ↦ rw e refl
]

pub date_min_snd :
    (a b : Date) → IsValid a → IsValid b → to_ordinal b ≤ to_ordinal a → date_min a b ≡ b
date_min_snd a b va vb h = elim (Bool-cases (date_ltb b a)) [
  | inl e ↦ rw e refl
  | inr e ↦ rw e (to_ordinal_inj a b va vb (omega (arith, not_ltb b a vb va e)))
]

-- The later of two dates, by their ordinals.
pub date_max_fst :
    (a b : Date) → IsValid a → IsValid b → to_ordinal b ≤ to_ordinal a → date_max a b ≡ a
date_max_fst a b va vb h = elim (Bool-cases (date_ltb a b)) [
  | inl e ↦ absurd (omega (arith, (date_ltb_iff a b va vb).0 e))
  | inr e ↦ rw e refl
]

pub date_max_snd :
    (a b : Date) → IsValid a → IsValid b → to_ordinal a ≤ to_ordinal b → date_max a b ≡ b
date_max_snd a b va vb h = elim (Bool-cases (date_ltb a b)) [
  | inl e ↦ rw e refl
  | inr e ↦ rw e (to_ordinal_inj a b va vb (omega (arith, not_ltb a b va vb e)))
]

pub date_leb-true :
    (a b : Date) → IsValid a → IsValid b → to_ordinal a ≤ to_ordinal b → date_leb a b ≡ true
date_leb-true a b va vb h = elim (Bool-cases (date_ltb b a)) [
  | inl e ↦ absurd (omega (arith, (date_ltb_iff b a vb va).0 e))
  | inr e ↦ rw e refl
]

pub date_leb-false :
    (a b : Date) → IsValid a → IsValid b → to_ordinal b < to_ordinal a → date_leb a b ≡ false
date_leb-false a b va vb h = rw ((date_ltb_iff b a vb va).1 h) refl
