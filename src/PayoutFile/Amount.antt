-- ===== src/PayoutFile/Amount.antt =====
-- Money cells: app/core/payout_file.py, lines 64 to 70 and 200 to 235. A number is its decimal
-- digits, mantissa / 10 ^ places, as `str` prints it; a date is the text that `str` makes of it.
mod Reading
mod Noise
mod RoundTrip
pub mod Capped
mod Tests
use Prim.Native.Nat.{◌^◌}
use avora_be.Prelude.{
  ℕ, zero, suc, ◌+◌, ◌-◌, ◌*◌, ◌/◌, ◌%◌, Bool, true, false, ◌&&◌, ◌||◌, not, Option, none, some,
  List, [], ◌∷◌, ◌++◌, leb, ltb, ◌==◌, if◌then◌else◌,
}
use avora_be.Prelude.Int.{ℤ, pos, negsuc, pos_part, neg_part}
use avora_be.PayoutFile.Text.{Text, codes, is_digit, is_space, is_empty, all_chars, strip, to_lower}

abbrev pub max_amount_minor : ℕ
max_amount_minor = 1_000_000_000_000

pub data AmountError : Type 0 where
  not_a_number too_large : AmountError

pub data Parsed {ℓ} (A : Type ℓ) : Type ℓ where
  ok : A → Parsed A
  failed : AmountError → Parsed A

-- A cell as openpyxl or csv gives it. `not_finite` is an infinity or nan, with its print.
pub data Cell : Type 0 where
  empty : Cell
  boolean : Bool → Cell
  number : Bool → ℕ → ℕ → Bool → Cell
  not_finite : Text → Cell
  text : Text → Cell

-- `/-\s*$`
abbrev is_dash_tail : Text → Bool
is_dash_tail [] = false
is_dash_tail (c ∷ s) = c == b'-' && all_chars is_space s

unfoldable pub drop_trailing_dash : Text → Text
drop_trailing_dash [] = []
drop_trailing_dash (c ∷ s) = if c == b'/' && is_dash_tail s then [] else c ∷ drop_trailing_dash s

-- A letter in either case.
abbrev pub is_letter : ℕ → ℕ → Bool
is_letter l c = to_lower c == l

abbrev starts_dot : Text → Bool
starts_dot [] = false
starts_dot (c ∷ s) = c == b'.'

abbrev starts_nr : Text → Bool
starts_nr (c ∷ d ∷ s) = is_letter b'n' c && is_letter b'r' d
starts_nr _ = false

abbrev starts_s : Text → Bool
starts_s [] = false
starts_s (c ∷ s) = is_letter b's' c

abbrev after_s : Text → Bool
after_s [] = false
after_s (c ∷ s) = starts_dot s

-- How many characters `(inr|rs\.?|₹|,|\s)` matches at the start of a text.
unfoldable pub noise_length : ℕ → Text → ℕ
noise_length c s =
    if is_letter b'i' c && starts_nr s
    then 3
    else if is_letter b'r' c && starts_s s
    then (if after_s s then 3 else 2)
    else if c == 8377 || c == b',' || is_space c
    then 1
    else 0

-- `_CURRENCY_NOISE.sub("", s)`; the number counts the characters of a match that are left to skip.
unfoldable pub drop_noise : ℕ → Text → Text
unfolding noise_length
drop_noise skip [] = []
drop_noise (suc skip) (c ∷ s) = drop_noise skip s
drop_noise zero (c ∷ s) = elim (noise_length c s) [
  | zero ↦ c ∷ drop_noise zero s
  | suc skip ↦ drop_noise skip s
]

-- `(\.\d{1,2})?$` behind the whole part, in hundredths.
unfoldable pub read_fraction : ℕ → Text → Option ℕ
read_fraction n (a ∷ []) = if is_digit a then some (n * 100 + (a - b'0') * 10) else none
read_fraction n (a ∷ b ∷ []) =
    if is_digit a && is_digit b then some (n * 100 + (a - b'0') * 10 + (b - b'0')) else none
read_fraction n _ = none

unfoldable pub read_whole : ℕ → Text → Option ℕ
unfolding read_fraction
read_whole n [] = some (n * 100)
read_whole n (c ∷ s) =
    let more = read_whole (n * 10 + (c - b'0')) s in
    if is_digit c then more else if c == b'.' then read_fraction n s else none

unfoldable pub read_unsigned : Text → Option ℕ
unfolding read_whole
read_unsigned [] = none
read_unsigned (c ∷ s) = if is_digit c then read_whole 0 (c ∷ s) else none

abbrev pub negated : ℕ → ℤ
negated zero = pos 0
negated (suc n) = negsuc n

abbrev pub with_sign : Bool → ℕ → ℤ
with_sign minus n = if minus then negated n else pos n

-- `abs(amount) * 100 > MAX_AMOUNT_MINOR` on an amount in paise.
abbrev pub capped : Bool → ℕ → Parsed (Option ℤ)
capped minus n =
    if ltb max_amount_minor n then failed AmountError.too_large else ok (some (with_sign minus n))

abbrev pub capped_reading : Bool → Option ℕ → Parsed (Option ℤ)
capped_reading minus none = failed AmountError.not_a_number
capped_reading minus (some n) = capped minus n

-- `_AMOUNT_RE` with `Decimal(text)`.
unfoldable pub read_amount : Text → Parsed (Option ℤ)
unfolding read_unsigned
read_amount [] = failed AmountError.not_a_number
read_amount (c ∷ s) =
    if c == b'-'
    then capped_reading true (read_unsigned s)
    else capped_reading false (read_unsigned (c ∷ s))

-- A number to paise, half a paisa away from zero; the bound is tested before rounding.
unfoldable pub number_minor : Bool → ℕ → ℕ → Parsed (Option ℤ)
number_minor minus mantissa places =
    if ltb (max_amount_minor * 10 ^ places) (mantissa * 100)
    then failed AmountError.too_large
    else ok (some (with_sign minus ((2 * (mantissa * 100) + 10 ^ places) / (2 * 10 ^ places))))

unfoldable pub parse_amount_minor : Cell → Parsed (Option ℤ)
unfolding drop_trailing_dash drop_noise read_amount number_minor
parse_amount_minor Cell.empty = ok none
parse_amount_minor (Cell.boolean b) = failed AmountError.not_a_number
parse_amount_minor (Cell.number minus mantissa places is_float) = number_minor minus mantissa places
parse_amount_minor (Cell.not_finite s) = failed AmountError.not_a_number
parse_amount_minor (Cell.text s) =
    if is_empty (strip s)
    then ok none
    else read_amount (drop_noise 0 (drop_trailing_dash (strip s)))
