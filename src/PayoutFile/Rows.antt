-- ===== src/PayoutFile/Rows.antt =====
-- The rows of a payout file: app/core/payout_file.py, lines 315 to 450 and 465 to 488. A sheet is
-- the list of its rows, each the cells that the reader gave or none where the reader failed on it;
-- reading bytes into sheets (openpyxl, csv) is not part of the repository.
pub mod Accepted
mod File
mod Tests
use Prim.Native.Nat.{◌^◌}
use avora_be.Prelude.{
  ℕ, zero, suc, ◌+◌, ◌-◌, ◌*◌, ◌/◌, Bool, true, false, not, ◌&&◌, ◌||◌, Option, none, some, List,
  [], ◌∷◌, ◌++◌, length, any, ltb, leb, ◌==◌, if◌then◌else◌, is_some,
}
use avora_be.Prelude.Int.{ℤ, pos}
use avora_be.PayoutFile.Text.{
  Text, codes, text_eq, is_empty, each, to_lower, or_none, normalize_account_number,
  normalize_email,
}
use avora_be.PayoutFile.Amount.{Cell, AmountError, Parsed, parse_amount_minor, ok, failed}
use avora_be.PayoutFile.Header.{
  PayoutField, Mapping, cell_text, header_map, take, is_whole, show_nat, aliases,
}

abbrev pub max_payout_rows : ℕ
max_payout_rows = 5000

abbrev pub max_scanned_rows : ℕ
max_scanned_rows = 2 * max_payout_rows

abbrev pub header_scan_rows : ℕ
header_scan_rows = 15

-- What `PayoutFileError` says, with its row.
pub data FileError : Type 0 where
  bad_amount : ℕ → AmountError → FileError
  missing_amount unreadable_row : ℕ → FileError
  too_many_scanned too_many_rows no_payments no_header : FileError

pub data Read {ℓ} (A : Type ℓ) : Type ℓ where
  done : A → Read A
  refused : FileError → Read A

pub record ParsedPayoutRow : Type 0 where
  pub row_number : ℕ
  pub employee_number : Option Text
  pub account_number : Option Text
  pub email : Option Text
  pub payee_name : Option Text
  pub amount_minor : ℤ
  pub reference : Option Text
  pub bank_status : Option Text
  pub failed_payment : Bool

abbrev pub cell_at {ℓ} : {A : Type ℓ} → ℕ → List A → Option A
cell_at i [] = none
cell_at zero (c ∷ cells) = some c
cell_at (suc i) (c ∷ cells) = cell_at i cells

abbrev pub cell_of : Option ℕ → List Cell → Option Cell
cell_of none cells = none
cell_of (some i) cells = cell_at i cells

abbrev text_of : Option Cell → Text
text_of none = []
text_of (some c) = take 256 (cell_text c)

-- `_text_at`
unfoldable pub text_at : List Cell → Mapping → PayoutField → Text
text_at cells mapping field = text_of (cell_of (mapping field) cells)

abbrev starts_with : Text → Text → Bool
starts_with [] s = true
starts_with (c ∷ p) [] = false
starts_with (c ∷ p) (d ∷ s) = c == d && starts_with p s

abbrev contains : Text → Text → Bool
contains p [] = is_empty p
contains p (c ∷ s) = starts_with p (c ∷ s) || contains p s

-- `_is_total_label`
abbrev pub is_total_label : Text → Bool
is_total_label s = contains (codes "total") (each to_lower s)

-- `_is_skippable`
abbrev pub is_skippable : Text → Text → Bool
is_skippable employee_number name =
    if is_empty employee_number
    then is_empty name || is_total_label name
    else is_total_label employee_number

abbrev lost_in : Option Cell → Bool
lost_in (some (Cell.number minus mantissa places true)) =
    is_whole mantissa places && ltb 15 (length (show_nat (mantissa / 10 ^ places)))
lost_in _ = false

-- `_lost_digits`: a whole float of more than 15 digits before its point.
unfoldable pub lost_digits : List Cell → Mapping → Bool
lost_digits cells mapping = lost_in (cell_of (mapping PayoutField.account_number) cells)

-- `_FAILED_STATUSES`
abbrev pub failed_statuses : List Text
failed_statuses =
    codes "failed"
    ∷ codes "failure"
    ∷ codes "rejected"
    ∷ codes "returned"
    ∷ codes "reversed"
    ∷ codes "cancelled"
    ∷ codes "canceled"
    ∷ codes "bounced"
    ∷ []

abbrev pub is_failed_status : Text → Bool
is_failed_status s = any (text_eq (each to_lower s)) failed_statuses

abbrev cell_or_empty : Option Cell → Cell
cell_or_empty none = Cell.empty
cell_or_empty (some c) = c

abbrev pub or_nothing : Option ℤ → ℤ
or_nothing none = pos 0
or_nothing (some n) = n

-- The row with a given amount; `status` and `failed` are those of the row.
abbrev pub with_amount :
    ℕ
    → List Cell
    → Mapping
    → Option Text
    → Option Text
    → Bool
    → Option ℤ
    → Read (Option ParsedPayoutRow)
with_amount row_number cells mapping account mail failing amount =
    if not (is_some amount) && not failing
    then refused (FileError.missing_amount row_number)
    else done (
        some (record {
          row_number = row_number;
          employee_number = or_none (text_at cells mapping PayoutField.employee_number);
          account_number = account;
          email = mail;
          payee_name = or_none (text_at cells mapping PayoutField.name);
          amount_minor = or_nothing amount;
          reference = or_none (take 64 (text_at cells mapping PayoutField.reference));
          bank_status = or_none (take 32 (text_at cells mapping PayoutField.status));
          failed_payment = failing;
        }))

-- The row once its amount cell was read.
abbrev pub with_reading :
    ℕ
    → List Cell
    → Mapping
    → Option Text
    → Option Text
    → Bool
    → Parsed (Option ℤ)
    → Read (Option ParsedPayoutRow)
with_reading row_number cells mapping account mail failing (failed why) =
    refused (FileError.bad_amount row_number why)
with_reading row_number cells mapping account mail failing (ok amount) =
    with_amount row_number cells mapping account mail failing amount

-- `_parse_row`
unfoldable pub parse_row : List Cell → Mapping → ℕ → Read (Option ParsedPayoutRow)
unfolding text_at lost_digits
parse_row cells mapping row_number =
    let employee_number = text_at cells mapping PayoutField.employee_number in
    let account =
      if lost_digits cells mapping
      then none
      else normalize_account_number (text_at cells mapping PayoutField.account_number) in
    let mail = normalize_email (text_at cells mapping PayoutField.email) in
    let name = text_at cells mapping PayoutField.name in
    let failing = is_failed_status (text_at cells mapping PayoutField.status) in
    if not (is_some account || is_some mail) && is_skippable employee_number name
    then done none
    else with_reading row_number cells mapping account mail failing
        (parse_amount_minor (cell_or_empty (cell_of (mapping PayoutField.amount) cells)))

-- `_Table`
pub record Table : Type 0 where
  pub mapping : Mapping
  pub rows : List ParsedPayoutRow
  pub lost_digit_rows : List ℕ

-- `_take_row` after the row was parsed.
abbrev pub take_parsed : Table → List Cell → ℕ → Read (Option ParsedPayoutRow) → Read Table
take_parsed table cells row_number (refused why) = refused why
take_parsed table cells row_number (done none) = done table
take_parsed table cells row_number (done (some row)) =
    if leb max_payout_rows (length table.rows)
    then refused FileError.too_many_rows
    else done (record table {
      rows = table.rows ++ (row ∷ []);
      lost_digit_rows =
          if lost_digits cells table.mapping
          then table.lost_digit_rows ++ (row_number ∷ [])
          else table.lost_digit_rows;
    })

-- `_take_row`
unfoldable pub take_row : Table → List Cell → ℕ → Read Table
take_row table cells row_number =
    take_parsed table cells row_number (parse_row cells table.mapping row_number)

-- The loop of `_parse_table` below the header, which stands in row `header_row`.
unfoldable pub read_rows : Table → ℕ → ℕ → List (Option (List Cell)) → Read Table
read_rows table header_row row_number [] = done table
read_rows table header_row row_number (none ∷ sheet) = refused (FileError.unreadable_row row_number)
read_rows table header_row row_number (some cells ∷ sheet) =
    let rest = elim (take_row table cells row_number) as (λ _. Read Table) [
      | refused why ↦ refused why
      | done table' ↦ read_rows table' header_row (row_number + 1) sheet
    ] in
    if ltb max_scanned_rows (row_number - header_row)
    then refused FileError.too_many_scanned
    else rest

-- The loop of `_parse_table` before a header was found.
unfoldable pub find_header : ℕ → List (Option (List Cell)) → Read (Option Table)
unfolding header_map
find_header row_number [] = done none
find_header row_number (none ∷ sheet) = refused (FileError.unreadable_row row_number)
find_header row_number (some cells ∷ sheet) =
    let later = find_header (row_number + 1) sheet in
    if ltb header_scan_rows row_number then done none else elim (header_map cells) [
      | none ↦ later
      | some mapping ↦
          elim (read_rows (record { mapping = mapping; rows = []; lost_digit_rows = [] }) row_number
            (row_number + 1) sheet) [ done table ↦ done (some table) | refused why ↦ refused why ]
    ]

-- What a sheet decides, and the answer for the sheets after it.
abbrev pub chosen : Read (Option Table) → Read Table → Read Table
chosen (refused why) more = refused why
chosen (done none) more = more
chosen (done (some table)) more =
    if length table.rows == 0 then refused FileError.no_payments else done table

-- The sheets of `parse_payout_file`, in order: the first with a header decides.
unfoldable pub parse_sheets : List (List (Option (List Cell))) → Read Table
parse_sheets [] = refused FileError.no_header
parse_sheets (sheet ∷ sheets) = chosen (find_header 1 sheet) (parse_sheets sheets)
