-- ===== src/Payroll/Tax/Slabs.antt =====
-- The slab loop of `compute_annual_income_tax` against a sum over all slabs.
use native.Mathlib.Nat.{mul-le-mul_right, zero-mul}
use avora_be.Prelude.{
  ℕ, ◌+◌, ◌-◌, ◌*◌, ◌≤◌, ◌<◌, ◌≡◌, ap, ◌∙◌, subst, none, some, List, [], ◌∷◌, arith,
}
use avora_be.Prelude.Round.{round_div, round_div_near, round_div_mono, round_share_step}
use avora_be.Payroll.Tax.{
  Slab, slab, tax_slabs_minor, rebate_taxable_limit_minor, band_top, add_slabs,
}

-- Slabs that begin at `l`, each where the one before it ends, the last with no cap; a rate is
-- below 100%.
pub data IsContiguous : ℕ → List Slab → Type 0 where
  last : (l rate : ℕ) → rate < 100 → IsContiguous l (slab l none rate ∷ [])
  more :
      (l u rate : ℕ) {rest : List Slab}
      → rate < 100
      → l ≤ u
      → IsContiguous u rest
      → IsContiguous l (slab l (some u) rate ∷ rest)

pub tax_slabs-IsContiguous : IsContiguous 0 tax_slabs_minor
tax_slabs-IsContiguous = more _ _ _ (omega arith) (omega arith) (
    more _ _ _ (omega arith) (omega arith) (
      more _ _ _ (omega arith) (omega arith) (
        more _ _ _ (omega arith) (omega arith) (
          more _ _ _ (omega arith) (omega arith)
            (more _ _ _ (omega arith) (omega arith) (last _ _ (omega arith)))))))

-- What one slab takes from a taxable income: its rate of the part that lies in it.
pub share : ℕ → Slab → ℕ
share taxable s = round_div ((band_top taxable s.upper - s.lower) * s.rate) 100

pub owed : ℕ → List Slab → ℕ
unfolding share
owed taxable [] = 0
owed taxable (s ∷ rest) = share taxable s + owed taxable rest

-- How much of a taxable income lies in a slab.
abbrev part : ℕ → Slab → ℕ
part x s = band_top x s.upper - s.lower

share_of_nothing : (x : ℕ) (s : Slab) → part x s ≡ 0 → share x s ≡ 0
unfolding share
share_of_nothing x s e =
    let n : part x s * s.rate ≡ 0 = ap (λ (t : ℕ). t * s.rate) e ∙ zero-mul s.rate in
    omega (arith, round_div_near (part x s * s.rate) 100 (omega arith))

owed_below : {l : ℕ} {slabs : List Slab} (x : ℕ) → IsContiguous l slabs → x ≤ l → owed x slabs ≡ 0
unfolding owed
owed_below x (last l rate cap) le =
    omega (arith, share_of_nothing x (slab l none rate) (omega arith))
owed_below x (more l u rate cap lu rest) le = omega (
  arith,
  share_of_nothing x (slab l (some u) rate) (omega arith),
  owed_below x rest (omega arith),
)

-- Leaving the loop at the first slab above the income loses nothing.
pub add_slabs-owed :
    {l : ℕ} {slabs : List Slab} (x tax : ℕ)
    → IsContiguous l slabs
    → add_slabs x slabs tax ≡ tax + owed x slabs
unfolding add_slabs owed share
add_slabs-owed x tax (last l rate cap) = ground (arith, owed_below x (last l rate cap))
add_slabs-owed x tax (more l u rate {rest} cap lu c) = ground (
  arith,
  owed_below x (more l u rate cap lu c),
  add_slabs-owed x (tax + share x (slab l (some u) rate)) c,
)

share_mono : (x y : ℕ) (s : Slab) → x ≤ y → share x s ≤ share y s
unfolding share
share_mono x y s le =
    round_div_mono (part x s * s.rate) (part y s * s.rate) 100 (omega arith)
      (mul-le-mul_right s.rate (grind arith))

pub owed_mono : (x y : ℕ) (slabs : List Slab) → x ≤ y → owed x slabs ≤ owed y slabs
unfolding owed
owed_mono x y [] le = omega arith
owed_mono x y (s ∷ rest) le = omega (arith, share_mono x y s le, owed_mono x y rest le)

share_step :
    (x y : ℕ) (s : Slab)
    → s.rate < 100
    → part x s ≤ part y s
    → share y s ≤ share x s + (part y s - part x s)
unfolding share
share_step x y s cap le =
    subst
      (λ p. round_div (p * s.rate) 100 ≤ round_div (part x s * s.rate) 100 + (part y s - part x s))
      (omega arith) (round_share_step (part x s) (part y s - part x s) s.rate cap)

-- Over contiguous slabs the sum grows by no more than the income above the first lower bound.
pub owed_step :
    {l : ℕ} {slabs : List Slab} (x y : ℕ)
    → IsContiguous l slabs
    → x ≤ y
    → owed y slabs ≤ owed x slabs + ((y - l) - (x - l))
unfolding owed
owed_step x y (last l rate cap) le =
    omega (arith, share_step x y (slab l none rate) cap (omega arith))
owed_step x y (more l u rate cap lu rest) le =
    omega (arith, share_step x y (slab l (some u) rate) cap (omega arith), owed_step x y rest le)

-- At the rebate limit the slabs already ask for tax.
pub limit_owes : 1 ≤ owed rebate_taxable_limit_minor tax_slabs_minor
unfolding owed share round_div
limit_owes = omega arith
