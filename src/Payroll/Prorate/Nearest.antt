-- ===== src/Payroll/Prorate/Nearest.antt =====
-- Rounded shares of amounts on either side of zero: app/core/payroll.py, `prorate_breakdown`.
use native.Mathlib.Nat.{le_of_mul-le-mul_left}
use avora_be.Prelude.{ℕ, zero, suc, ◌+◌, ◌*◌, ◌≤◌, ◌<◌, ◌≡◌, ap, arith}
use avora_be.Prelude.Int.{ℤ, pos, negsuc, pos_part, neg_part, ◌+ℤ◌, ◌≤ℤ◌, int_laws}
use avora_be.Prelude.Round.{round_div, round_div_near}
use avora_be.Payroll.Prorate.{negate, round_share}

-- A share is at most half a unit away from the exact one, on either side of zero.
pub record Near (s m : ℤ) (num den : ℕ) : Type 0 where
  pub above :
      2 * (den * pos_part s) + 2 * (num * neg_part m)
      ≤ 2 * (num * pos_part m) + 2 * (den * neg_part s) + den
  pub below :
      2 * (num * pos_part m) + 2 * (den * neg_part s)
      ≤ 2 * (den * pos_part s) + 2 * (num * neg_part m) + den

negate_parts : (n : ℕ) → (pos_part (negate n) ≡ 0) × (neg_part (negate n) ≡ n)
negate_parts zero = (omega arith, omega arith)
negate_parts (suc n) = (omega arith, omega arith)

pub round_share-Near : (m : ℤ) (num den : ℕ) → 0 < den → Near (round_share m num den) m num den
unfolding round_share
round_share-Near (pos n) num den h = record {
  above = grind (arith, round_div_near (n * num) den h);
  below = grind (arith, round_div_near (n * num) den h);
}
round_share-Near (negsuc n) num den h = record {
  above =
      grind (arith, round_div_near (suc n * num) den h, negate_parts (round_div (suc n * num) den));
  below =
      grind (arith, round_div_near (suc n * num) den h, negate_parts (round_div (suc n * num) den));
}

-- The same in plain numbers: the parts of three shares and of the share of their sum.
module _ (num den : ℕ) (h : 0 < den) where
  abbrev Within : ℕ → ℕ → ℕ → ℕ → Type 0
  Within s t m n = 2 * (den * s) + 2 * (num * n) ≤ 2 * (num * m) + 2 * (den * t) + den

  sum-Within :
      (s t u v m n o q sa ta ma na : ℕ)
      → Within s t m n
      → Within u v o q
      → Within sa ta ma na
      → (w x r y : ℕ) → Within x w y r
      → m + o + ma + y ≡ n + q + na + r
      → s + u + sa + x ≤ t + v + ta + w + 2
  sum-Within s t u v m n o q sa ta ma na f1 f2 f3 w x r y f4 e =
      let times : num * (m + o + ma + y) ≡ num * (n + q + na + r) = ap (λ (z : ℕ). num * z) e in
      let twice : den * (s + u + sa + x) ≤ den * (t + v + ta + w + 2) =
        omega (arith, times, f1, f2, f3, f4) in
      le_of_mul-le-mul_left twice h

  flip : (s m : ℤ) → Near s m num den → Within (neg_part s) (pos_part s) (neg_part m) (pos_part m)
  flip s m near = omega (arith, near.below)

  -- Three shares against the share of the sum: two units at most.
  pub three_shares :
      (a b c g : ℤ)
      → a +ℤ b +ℤ c ≡ g
      → (round_share a num den +ℤ round_share b num den +ℤ round_share c num den
          ≤ℤ round_share g num den +ℤ pos 2)
        × (round_share g num den
            ≤ℤ round_share a num den +ℤ round_share b num den +ℤ round_share c num den +ℤ pos 2)
  three_shares a b c g e =
      let p = ap pos_part e in
      let n = ap neg_part e in
      let na = round_share-Near a num den h in
      let nb = round_share-Near b num den h in
      let nc = round_share-Near c num den h in
      let ng = round_share-Near g num den h in
      let over =
        sum-Within _ _ _ _ _ _ _ _ _ _ _ _ na.above nb.above nc.above _ _ _ _
          (flip (round_share g num den) g ng) (omega (int_laws, p, n)) in
      let under =
        sum-Within _ _ _ _ _ _ _ _ _ _ _ _ (flip (round_share a num den) a na)
          (flip (round_share b num den) b nb) (flip (round_share c num den) c nc) _ _ _ _ ng.above
          (omega (int_laws, p, n)) in
      (omega (int_laws, over), omega (int_laws, under))
