-- ===== src/PayoutFile/Rows/Tests.antt =====
-- A payout file as accounts upload it.
use avora_be.Prelude.{◌≡◌, ◌≤◌, ◌<◌, refl, true, false, List, [], ◌∷◌, Option, some, none, length}
use avora_be.Prelude.Int.{pos}
use avora_be.PayoutFile.Text.{codes, normalize_account_number, normalize_email}
use avora_be.PayoutFile.Amount.{Cell, parse_amount_minor}
use avora_be.PayoutFile.Header.{Mapping, column_of}
use avora_be.PayoutFile.Rows.{
  FileError, Read, done, refused, Table, ParsedPayoutRow, max_payout_rows, parse_sheets,
  find_header, read_rows, take_row, parse_row,
}
use avora_be.PayoutFile.Rows.File.{parse_sheets_lem, ReadFile, EachCapped}

abbrev sheet : List (Option (List Cell))
sheet =
    some (Cell.text (codes "Salaries of May") ∷ [])
    ∷ some
        (Cell.text (codes "Emp No") ∷ Cell.text (codes "Name") ∷ Cell.text (codes "Net Pay") ∷ [])
    ∷ some
        (Cell.number false 14 0 true ∷ Cell.text (codes "Asha") ∷ Cell.text (codes "1,250.50") ∷ [])
    ∷ some (Cell.empty ∷ Cell.text (codes "Net total") ∷ Cell.number false 125_050 2 true ∷ [])
    ∷ []

abbrev row : ParsedPayoutRow
row = record {
  row_number = 3;
  employee_number = some (codes "14");
  account_number = none;
  email = none;
  payee_name = some (codes "Asha");
  amount_minor = pos 125_050;
  reference = none;
  bank_status = none;
  failed_payment = false;
}

abbrev columns : Mapping
columns field =
    column_of field
      (Cell.text (codes "Emp No") ∷ Cell.text (codes "Name") ∷ Cell.text (codes "Net Pay") ∷ [])

abbrev answer : Read Table → Option (List ParsedPayoutRow)
answer (done table) = some table.rows
answer (refused why) = none

read : answer (parse_sheets (sheet ∷ [])) ≡ some (row ∷ [])
unfolding parse_sheets find_header read_rows take_row parse_row normalize_account_number
    normalize_email parse_amount_minor
read = refl

abbrev gap : List (Option (List Cell))
gap =
    some (Cell.text (codes "Emp No") ∷ Cell.text (codes "Net Pay") ∷ [])
    ∷ some (Cell.text (codes "E7") ∷ Cell.empty ∷ [])
    ∷ []

missing : parse_sheets (gap ∷ []) ≡ refused (FileError.missing_amount 2)
unfolding parse_sheets find_header read_rows take_row parse_row normalize_account_number
    normalize_email parse_amount_minor
missing = refl

abbrev table : Table
table = record { mapping = columns; rows = row ∷ []; lost_digit_rows = [] }

parse_sheets_lem_example :
    (0 < length table.rows)
    × (length table.rows ≤ max_payout_rows)
    × EachCapped table.rows
    × ReadFile (sheet ∷ []) table
unfolding parse_sheets find_header read_rows take_row parse_row normalize_account_number
    normalize_email parse_amount_minor
parse_sheets_lem_example = parse_sheets_lem (sheet ∷ []) refl
