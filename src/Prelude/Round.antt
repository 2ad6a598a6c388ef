-- ===== src/Prelude/Round.antt =====
-- Python's `round(n / d)`: to the nearest integer, a tie to the even neighbour.
use native.Mathlib.Nat.{div-add-mod, mod-lt, mul-le-mul_left, le-pred_of_lt}
use native.Mathlib.Decide.{dec_lt}
use avora_be.Prelude.{
  ℕ, zero, suc, ◌+◌, ◌*◌, ◌/◌, ◌%◌, ◌≤◌, ◌<◌, ◌≡◌, ap, ◌⊎◌, inl, inr, arith, ltb, ◌==◌,
  if◌then◌else◌,
}

-- The rounding of q + r / d, for a remainder r.
round_up : ℕ → ℕ → ℕ → ℕ
round_up q r d =
    if ltb (2 * r) d then q else if ltb d (2 * r) then q + 1 else if q % 2 == 0 then q else q + 1

unfoldable pub round_div : ℕ → ℕ → ℕ
unfolding round_up
round_div n d = round_up (n / d) (n % d) d

round_up_cases :
    (q r d : ℕ) → (round_up q r d ≡ q) × (2 * r ≤ d) ⊎ (round_up q r d ≡ q + 1) × (d ≤ 2 * r)
unfolding round_up
round_up_cases q r d = ground arith

-- The result is at most half a unit away from n / d.
pub round_div_near :
    (n d : ℕ)
    → 0 < d
    → (2 * (d * round_div n d) ≤ 2 * n + d) × (2 * n ≤ 2 * (d * round_div n d) + d)
unfolding round_div
round_div_near n d h = elim (round_up_cases (n / d) (n % d) d) [
  | inl (e, le) ↦ rw e (omega (arith, div-add-mod n d), omega (arith, div-add-mod n d))
  | inr (e, le) ↦
      rw e (omega (arith, div-add-mod n d, mod-lt n h), omega (arith, div-add-mod n d, mod-lt n h))
]

round_up_bounds : (q r d : ℕ) → (q ≤ round_up q r d) × (round_up q r d ≤ q + 1)
unfolding round_up
round_up_bounds q r d = ground arith

round_up_mono : (q r s d : ℕ) → r ≤ s → round_up q r d ≤ round_up q s d
unfolding round_up
round_up_mono q r s d h = ground arith

-- The quotient and remainder of a smaller number come first.
div_mod_mono : (n m d : ℕ) → 0 < d → n ≤ m → n / d ≤ m / d
div_mod_mono n m d h le = elim (dec_lt (m / d) (n / d)) [
  | yes lt ↦
      absurd (omega (arith, div-add-mod n d, div-add-mod m d, mod-lt m h, mul-le-mul_left d lt))
  | no ge ↦ omega arith
]

-- Rounding is monotone.
pub round_div_mono : (n m d : ℕ) → 0 < d → n ≤ m → round_div n d ≤ round_div m d
unfolding round_div
round_div_mono n m d h le = elim (dec_lt (n / d) (m / d)) [
  | yes lt ↦ omega (arith, round_up_bounds (n / d) (n % d) d, round_up_bounds (m / d) (m % d) d)
  | no ge ↦
      let e : n / d ≡ m / d = omega (arith, div_mod_mono n m d h le) in
      rw e (
        round_up_mono (m / d) (n % d) (m % d) d
          (omega (arith, div-add-mod n d, div-add-mod m d, ap (λ (t : ℕ). d * t) e)))
]

-- Of two amounts the rounded share grows by no more than the amount, at a rate below 100%.
pub round_share_step :
    (x k rate : ℕ) → rate < 100 → round_div ((x + k) * rate) 100 ≤ round_div (x * rate) 100 + k
round_share_step x zero rate h =
    let e : x + 0 ≡ x = omega arith in omega (arith, ap (λ (t : ℕ). round_div (t * rate) 100) e)
round_share_step x (suc k) rate h = omega (
  arith,
  round_div_near ((x + suc k) * rate) 100 (omega arith),
  round_div_near (x * rate) 100 (omega arith),
  mul-le-mul_left (suc k) (le-pred_of_lt h),
)
