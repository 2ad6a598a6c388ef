-- ===== src/PayoutFile/Amount/Reading.antt =====
-- Amounts in decimal notation are read back: app/core/payout_file.py, `parse_amount_minor`.
use avora_be.Prelude.{
  ℕ, zero, suc, ◌+◌, ◌-◌, ◌*◌, ◌/◌, ◌%◌, ◌≤◌, ◌<◌, ◌≡◌, ◌∙◌, refl, ap, Bool, true, false, some, [],
  ◌∷◌, ◌++◌, All, ltb, if◌then◌else◌, arith, Bool-cases, inl, inr,
}
use avora_be.PayoutFile.Text.{Text, is_digit, is_empty}
use avora_be.PayoutFile.Amount.{
  ok, max_amount_minor, read_fraction, read_whole, read_unsigned, read_amount, with_sign, capped,
  capped_reading,
}

-- The digits of a number, with fuel above it.
unfoldable pub print_nat : ℕ → ℕ → Text
print_nat zero n = []
print_nat (suc fuel) n =
    let more = print_nat fuel (n / 10) ++ ((b'0' + n % 10) ∷ []) in
    if ltb n 10 then (b'0' + n) ∷ [] else more

-- The point and two digits of paise.
unfoldable pub paise_of : ℕ → Text
paise_of n = b'.' ∷ (b'0' + n % 100 / 10) ∷ (b'0' + n % 10) ∷ []

-- The rupees and the paise, behind a sign.
unfoldable pub print_amount : Bool → ℕ → Text
print_amount minus n =
    let unsigned = print_nat (suc n) (n / 100) ++ paise_of n in
    if minus then b'-' ∷ unsigned else unsigned

abbrev value : ℕ → Text → ℕ
value n [] = n
value n (c ∷ s) = value (n * 10 + (c - b'0')) s

value-snoc : (n c : ℕ) (s : Text) → value n (s ++ (c ∷ [])) ≡ value n s * 10 + (c - b'0')
value-snoc n c [] = refl
value-snoc n c (d ∷ s) = value-snoc (n * 10 + (d - b'0')) c s

abbrev Digits : Text → Type 0
Digits s = All (λ c. is_digit c ≡ true) s

Digits-snoc : (c : ℕ) (s : Text) → Digits s → is_digit c ≡ true → Digits (s ++ (c ∷ []))
Digits-snoc c [] all d = (d, tt)
Digits-snoc c (x ∷ s) (h, all) d = (h, Digits-snoc c s all d)

print_nat_lem :
    (fuel n : ℕ) → n < fuel → Digits (print_nat fuel n) × (value 0 (print_nat fuel n) ≡ n)
unfolding print_nat
print_nat_lem zero n h = absurd (omega arith)
print_nat_lem (suc fuel) n h = elim (Bool-cases (ltb n 10)) [
  | inl small ↦ rw small ((ground arith, tt), ground arith)
  | inr large ↦
      let (all, same) = print_nat_lem fuel (n / 10) (ground arith) in
      rw large (
        Digits-snoc (b'0' + n % 10) (print_nat fuel (n / 10)) all (ground arith),
        value-snoc 0 (b'0' + n % 10) (print_nat fuel (n / 10)) ∙ omega (arith, same),
      )
]

-- Digits are read by their value.
read_whole-Digits :
    (n : ℕ) (s rest : Text) → Digits s → read_whole n (s ++ rest) ≡ read_whole (value n s) rest
unfolding read_whole
read_whole-Digits n [] rest all = refl
read_whole-Digits n (c ∷ s) rest (d, all) =
    rw d (read_whole-Digits (n * 10 + (c - b'0')) s rest all)

is_empty-snoc : (s t : Text) → is_empty t ≡ false → is_empty (s ++ t) ≡ false
is_empty-snoc [] t h = h
is_empty-snoc (c ∷ s) t h = refl

print_nat-is_empty : (fuel n : ℕ) → is_empty (print_nat (suc fuel) n) ≡ false
unfolding print_nat
print_nat-is_empty fuel n = elim (Bool-cases (ltb n 10)) [
  | inl small ↦ rw small refl
  | inr large ↦ rw large (is_empty-snoc (print_nat fuel (n / 10)) _ refl)
]

read_unsigned-Digits :
    (s rest : Text)
    → is_empty s ≡ false
    → Digits s
    → read_unsigned (s ++ rest) ≡ read_whole (value 0 s) rest
unfolding read_unsigned
read_unsigned-Digits [] rest some_digit all = absurd (ground arith)
read_unsigned-Digits (c ∷ s) rest some_digit (d, all) =
    rw d (read_whole-Digits (0 * 10 + (c - b'0')) s rest all)

-- A sign is not a digit.
read_amount-minus : (s : Text) → read_amount (b'-' ∷ s) ≡ capped_reading true (read_unsigned s)
unfolding read_amount
read_amount-minus s = refl

read_amount-Digits :
    (s rest : Text)
    → is_empty s ≡ false
    → Digits s
    → read_amount (s ++ rest) ≡ capped_reading false (read_unsigned (s ++ rest))
unfolding read_amount
read_amount-Digits [] rest some_digit all = absurd (ground arith)
read_amount-Digits (c ∷ s) rest some_digit (d, all) = ground (arith, d)

paise_read : (n : ℕ) → read_whole (n / 100) (paise_of n) ≡ some n
unfolding read_whole read_fraction paise_of
paise_read n = ground arith

unsigned_read : (n : ℕ) → read_unsigned (print_nat (suc n) (n / 100) ++ paise_of n) ≡ some n
unsigned_read n =
    let whole = print_nat (suc n) (n / 100) in
    let (all, same) = print_nat_lem (suc n) (n / 100) (omega arith) in
    read_unsigned-Digits whole (paise_of n) (print_nat-is_empty n (n / 100)) all
    ∙ ap (λ m. read_whole m (paise_of n)) same
    ∙ paise_read n

capped_lem :
    (minus : Bool) (n : ℕ) → n ≤ max_amount_minor → capped minus n ≡ ok (some (with_sign minus n))
capped_lem minus n le = ground arith

pub read_amount-print_amount :
    (minus : Bool) (n : ℕ)
    → n ≤ max_amount_minor
    → read_amount (print_amount minus n) ≡ ok (some (with_sign minus n))
unfolding print_amount
read_amount-print_amount true n le =
    read_amount-minus (print_nat (suc n) (n / 100) ++ paise_of n)
    ∙ ap (capped_reading true) (unsigned_read n)
    ∙ capped_lem true n le
read_amount-print_amount false n le =
    let (all, same) = print_nat_lem (suc n) (n / 100) (omega arith) in
    read_amount-Digits (print_nat (suc n) (n / 100)) (paise_of n) (print_nat-is_empty n (n / 100))
      all
    ∙ ap (capped_reading false) (unsigned_read n)
    ∙ capped_lem false n le
