-- ===== src/PayoutFile/Amount/Capped.antt =====
-- No amount that is read is beyond the cap: app/core/payout_file.py, `parse_amount_minor`.
use Prim.Native.Nat.{◌^◌}
use native.Mathlib.Nat.{div-lt_iff_lt-mul, one-le-pow}
use avora_be.Prelude.{
  ℕ, zero, suc, ◌+◌, ◌*◌, ◌/◌, ◌≤◌, ◌<◌, ◌≡◌, subst, Bool, true, false, Option, none, some, [], ◌∷◌,
  ltb, ◌==◌, inl, inr, arith, Bool-cases,
}
use avora_be.Prelude.Int.{ℤ, pos_part, neg_part}
use avora_be.PayoutFile.Text.{Text, is_empty, strip}
use avora_be.PayoutFile.Amount.{
  Cell, Parsed, ok, max_amount_minor, parse_amount_minor, number_minor, with_sign, capped,
  capped_reading, read_unsigned, read_amount, drop_noise, drop_trailing_dash,
}

-- An amount of either sign within the cap.
abbrev pub Capped : ℤ → Type 0
Capped n = (pos_part n ≤ max_amount_minor) × (neg_part n ≤ max_amount_minor)

with_sign-Capped : (minus : Bool) (n : ℕ) → n ≤ max_amount_minor → Capped (with_sign minus n)
with_sign-Capped true zero le = (omega arith, omega arith)
with_sign-Capped true (suc n) le = (omega arith, omega arith)
with_sign-Capped false n le = (omega arith, omega arith)

-- Rounding does not leave a bound that is a whole number.
half_up-le : (x bound d : ℕ) → 0 < d → x ≤ bound * d → (2 * x + d) / (2 * d) ≤ bound
half_up-le x bound d h le =
    let lt : 2 * x + d < (bound + 1) * (2 * d) = omega (arith, le, h) in
    let below : (2 * x + d) / (2 * d) < bound + 1 = (div-lt_iff_lt-mul (omega arith)).1 lt in
    omega arith

-- An amount that is read is the one within the cap.
read-Capped :
    (m n : ℤ) → ◌≡◌ {A = Parsed (Option ℤ)} (ok (some m)) (ok (some n)) → Capped m → Capped n
read-Capped m n same fits = let e : m ≡ n = cc in subst Capped e fits

number_minor-Capped :
    (minus : Bool) (mantissa places : ℕ) {n : ℤ}
    → number_minor minus mantissa places ≡ ok (some n)
    → Capped n
unfolding number_minor
number_minor-Capped minus mantissa places {n} h =
    elim (Bool-cases (ltb (max_amount_minor * 10 ^ places) (mantissa * 100))) [
      | inl over ↦ absurd (ground (arith, rw over at h))
      | inr fits ↦
          let x = (2 * (mantissa * 100) + 10 ^ places) / (2 * 10 ^ places) in
          read-Capped (with_sign minus x) n (rw fits at h) (
            with_sign-Capped minus x (
              half_up-le (mantissa * 100) max_amount_minor (10 ^ places)
                (one-le-pow places 10 (omega arith)) (ground (arith, fits))))
    ]

capped-Capped : (minus : Bool) (m : ℕ) {n : ℤ} → capped minus m ≡ ok (some n) → Capped n
capped-Capped minus m {n} h = elim (Bool-cases (ltb max_amount_minor m)) [
  | inl over ↦ absurd (ground (arith, rw over at h))
  | inr fits ↦
      read-Capped (with_sign minus m) n (rw fits at h)
        (with_sign-Capped minus m (ground (arith, fits)))
]

capped_reading-Capped :
    (minus : Bool) (o : Option ℕ) {n : ℤ} → capped_reading minus o ≡ ok (some n) → Capped n
capped_reading-Capped minus none h = absurd (ground (arith, h))
capped_reading-Capped minus (some m) h = capped-Capped minus m h

read_amount-Capped : (s : Text) {n : ℤ} → read_amount s ≡ ok (some n) → Capped n
unfolding read_amount
read_amount-Capped [] h = absurd (ground (arith, h))
read_amount-Capped (c ∷ s) {n} h = elim (Bool-cases (c == b'-')) [
  | inl minus ↦ capped_reading-Capped true (read_unsigned s) (rw minus at h)
  | inr plus ↦ capped_reading-Capped false (read_unsigned (c ∷ s)) (rw plus at h)
]

pub parse_amount_minor-Capped : (c : Cell) {n : ℤ} → parse_amount_minor c ≡ ok (some n) → Capped n
unfolding parse_amount_minor
parse_amount_minor-Capped Cell.empty h = absurd (ground (arith, h))
parse_amount_minor-Capped (Cell.boolean b) h = absurd (ground (arith, h))
parse_amount_minor-Capped (Cell.number minus mantissa places is_float) h =
    number_minor-Capped minus mantissa places h
parse_amount_minor-Capped (Cell.not_finite s) h = absurd (ground (arith, h))
parse_amount_minor-Capped (Cell.text s) h = elim (Bool-cases (is_empty (strip s))) [
  | inl blank ↦ absurd (ground (arith, rw blank at h))
  | inr shown ↦ read_amount-Capped (drop_noise 0 (drop_trailing_dash (strip s))) (rw shown at h)
]
