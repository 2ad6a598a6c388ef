-- ===== src/PayoutFile/Amount/RoundTrip.antt =====
-- A printed amount is read back from its cell: app/core/payout_file.py, `parse_amount_minor`.
use avora_be.Prelude.{
  ℕ, ◌≤◌, ◌≡◌, ◌≢◌, ◌∙◌, ap, sym, Bool, some, [], keep, arith, Bool-cases, inl, inr,
}
use avora_be.PayoutFile.Text.{Text, is_empty, strip}
use avora_be.PayoutFile.Amount.{
  Cell, ok, max_amount_minor, drop_noise, drop_trailing_dash, read_amount, parse_amount_minor,
  with_sign,
}
use avora_be.PayoutFile.Amount.Reading.{print_amount, read_amount-print_amount}
use avora_be.PayoutFile.Amount.Noise.{
  is_plain, Strewn, empty_nil, strip-Strewn, drop_noise-Strewn, drop_trailing_dash-Strewn,
}

print_amount-ne-nil : (minus : Bool) (n : ℕ) → n ≤ max_amount_minor → print_amount minus n ≢ []
unfolding read_amount
print_amount-ne-nil minus n le h =
    let read = ap read_amount (sym h) ∙ read_amount-print_amount minus n le in
    absurd (ground (arith, read))

-- An amount in decimal notation, with a sign for a negative one and two digits of paise, is read
-- back exactly, up to the greatest amount that is allowed, however commas, spaces and rupee signs
-- are strewn between its characters.
pub parse_amount_minor-print_amount :
    (minus : Bool) (n : ℕ) (s : Text)
    → n ≤ max_amount_minor
    → Strewn s
    → keep is_plain s ≡ print_amount minus n
    → parse_amount_minor (Cell.text s) ≡ ok (some (with_sign minus n))
unfolding parse_amount_minor
parse_amount_minor-print_amount minus n s le strewn shows =
    let (all, same) = strip-Strewn s strewn in
    let read : read_amount (drop_noise 0 (drop_trailing_dash (strip s)))
        ≡ ok (some (with_sign minus n)) =
      ap (λ t. read_amount (drop_noise 0 t)) (drop_trailing_dash-Strewn (strip s) all)
      ∙ ap read_amount (drop_noise-Strewn (strip s) all ∙ same ∙ shows)
      ∙ read_amount-print_amount minus n le in
    elim (Bool-cases (is_empty (strip s))) [
      | inl blank ↦ absurd (
          print_amount-ne-nil minus n le
            (sym shows ∙ sym same ∙ ap (keep is_plain) (empty_nil (strip s) blank)))
      | inr shown ↦ rw shown read
    ]
