-- ===== src/PayoutFile/Amount/Tests.antt =====
-- Amounts as accounts write them.
use avora_be.Prelude.{◌≡◌, refl, some, true, false, arith}
use avora_be.Prelude.Int.{pos, negsuc}
use avora_be.PayoutFile.Text.{codes}
use avora_be.PayoutFile.Amount.{Cell, AmountError, parse_amount_minor, ok, failed}
use avora_be.PayoutFile.Amount.Reading.{print_amount, print_nat, paise_of}
use avora_be.PayoutFile.Amount.RoundTrip.{parse_amount_minor-print_amount}

indian : parse_amount_minor (Cell.text (codes " Rs. 1,23,456.5/- ")) ≡ ok (some (pos 12_345_650))
unfolding parse_amount_minor
indian = refl

negative : parse_amount_minor (Cell.text (codes "-12.34 INR")) ≡ ok (some (negsuc 1_233))
unfolding parse_amount_minor
negative = refl

three_places : parse_amount_minor (Cell.text (codes "1.234")) ≡ failed AmountError.not_a_number
unfolding parse_amount_minor
three_places = refl

-- 10.005 as a number is rounded up.
half_up : parse_amount_minor (Cell.number false 10_005 3 true) ≡ ok (some (pos 1_001))
unfolding parse_amount_minor
half_up = refl

parse_amount_minor-print_amount_example :
    parse_amount_minor (Cell.text (codes "₹ 1,23,456.50")) ≡ ok (some (pos 12_345_650))
unfolding print_amount print_nat paise_of
parse_amount_minor-print_amount_example =
    parse_amount_minor-print_amount false 12_345_650 (codes "₹ 1,23,456.50") (omega arith)
      (ground arith) refl
