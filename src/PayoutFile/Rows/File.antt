-- ===== src/PayoutFile/Rows/File.antt =====
-- A whole accepted file: app/core/payout_file.py, `parse_payout_file`.
use avora_be.Prelude.{
  ℕ, ◌+◌, ◌≤◌, ◌<◌, ◌≡◌, refl, sym, subst, Bool, true, false, not, ◌&&◌, ◌||◌, Option, none, some,
  List, [], ◌∷◌, ◌++◌, length, All, ltb, ◌==◌, if◌then◌else◌, is_some, ◌⊎◌, inl, inr, arith,
  Bool-cases, Option-cases,
}
use avora_be.Prelude.Int.{ℤ, pos}
use avora_be.PayoutFile.Text.{Text, normalize_account_number, normalize_email}
use avora_be.PayoutFile.Amount.{Cell, Parsed, ok, failed, parse_amount_minor}
use avora_be.PayoutFile.Amount.Capped.{Capped, parse_amount_minor-Capped}
use avora_be.PayoutFile.Header.{PayoutField, Mapping, header_map}
use avora_be.PayoutFile.Rows.{
  FileError, ParsedPayoutRow, Read, done, refused, Table, header_scan_rows, max_payout_rows,
  parse_row, read_rows, find_header, chosen, parse_sheets, text_at, lost_digits, is_failed_status,
  is_skippable, cell_of, cell_or_empty, with_amount, with_reading, or_nothing,
}
use avora_be.PayoutFile.Rows.Accepted.{
  payment_of, payments, Understood, read_rows-Accepted, Read-cases, done_inj,
}

abbrev pub EachCapped : List ParsedPayoutRow → Type 0
EachCapped rows = All (λ row. Capped row.amount_minor) rows

with_amount-Capped :
    (n : ℕ) (cells : List Cell) (m : Mapping) (account mail : Option Text) (failing : Bool)
    (amount : Option ℤ)
    → Capped (or_nothing amount)
    → EachCapped (payment_of (with_amount n cells m account mail failing amount))
with_amount-Capped n cells m account mail failing amount fits =
    elim (Bool-cases (not (is_some amount) && not failing)) [
      | inl missing ↦ rw missing tt
      | inr there ↦ rw there (fits, tt)
    ]

-- The amount of a reading, zero where there is none.
abbrev amount_of : Parsed (Option ℤ) → ℤ
amount_of (ok amount) = or_nothing amount
amount_of (failed why) = pos 0

with_reading-Capped :
    (n : ℕ) (cells : List Cell) (m : Mapping) (account mail : Option Text) (failing : Bool)
    (r : Parsed (Option ℤ))
    → Capped (amount_of r)
    → EachCapped (payment_of (with_reading n cells m account mail failing r))
with_reading-Capped n cells m account mail failing (failed why) fits = tt
with_reading-Capped n cells m account mail failing (ok amount) fits =
    with_amount-Capped n cells m account mail failing amount fits

amount_of-Capped :
    (c : Cell) (r : Parsed (Option ℤ)) → parse_amount_minor c ≡ r → Capped (amount_of r)
amount_of-Capped c (ok none) e = (omega arith, omega arith)
amount_of-Capped c (ok (some n)) e = parse_amount_minor-Capped c e
amount_of-Capped c (failed why) e = (omega arith, omega arith)

kept-Capped :
    (skip : Bool) (r : Read (Option ParsedPayoutRow))
    → EachCapped (payment_of r)
    → EachCapped (payment_of (if skip then done none else r))
kept-Capped true r h = tt
kept-Capped false r h = h

parse_row-Capped :
    (cells : List Cell) (m : Mapping) (n : ℕ) → EachCapped (payment_of (parse_row cells m n))
unfolding parse_row
parse_row-Capped cells m n =
    let number = text_at cells m PayoutField.employee_number in
    let name = text_at cells m PayoutField.name in
    let account =
      if lost_digits cells m
      then none
      else normalize_account_number (text_at cells m PayoutField.account_number) in
    let mail = normalize_email (text_at cells m PayoutField.email) in
    let failing = is_failed_status (text_at cells m PayoutField.status) in
    let cell = cell_or_empty (cell_of (m PayoutField.amount) cells) in
    let r = parse_amount_minor cell in
    kept-Capped (not (is_some account || is_some mail) && is_skippable number name)
      (with_reading n cells m account mail failing r)
      (with_reading-Capped n cells m account mail failing r (amount_of-Capped cell r refl))

EachCapped-append :
    (xs ys : List ParsedPayoutRow) → EachCapped xs → EachCapped ys → EachCapped (xs ++ ys)
EachCapped-append [] ys hx hy = hy
EachCapped-append (x ∷ xs) ys (h, hx) hy = (h, EachCapped-append xs ys hx hy)

payments-Capped :
    (m : Mapping) (n : ℕ) (sheet : List (Option (List Cell))) → EachCapped (payments m n sheet)
payments-Capped m n [] = tt
payments-Capped m n (none ∷ sheet) = payments-Capped m (n + 1) sheet
payments-Capped m n (some cells ∷ sheet) =
    EachCapped-append (payment_of (parse_row cells m n)) (payments m (n + 1) sheet)
      (parse_row-Capped cells m n) (payments-Capped m (n + 1) sheet)

-- A table as it is read from a sheet below a header that gave its columns.
abbrev pub ReadFrom : Mapping → ℕ → List (Option (List Cell)) → Table → Type 0
ReadFrom m n below table =
    Understood m n below
    × (table.mapping ≡ m)
    × (table.rows ≡ payments m n below)
    × (length table.rows ≤ max_payout_rows)

-- A table with its header within the first rows of a sheet.
abbrev pub ReadSheet : ℕ → List (Option (List Cell)) → Table → Type 0
ReadSheet n [] table = ⊥
ReadSheet n (none ∷ sheet) table = ⊥
ReadSheet n (some cells ∷ sheet) table =
    (n ≤ header_scan_rows)
    × (((m : Mapping) × (header_map cells ≡ some m) × ReadFrom m (n + 1) sheet table)
        ⊎ ((header_map cells ≡ none) × ReadSheet (n + 1) sheet table))

header-ReadFrom :
    (m : Mapping) (header n : ℕ) (sheet : List (Option (List Cell))) {table : Table}
    → read_rows (record { mapping = m; rows = []; lost_digit_rows = [] }) header n sheet
      ≡ done table
    → ReadFrom m n sheet table
header-ReadFrom m header n sheet h =
    let (known, same, rows, room) = read_rows-Accepted _ header n sheet h in
    (known, same, rows, room (omega arith))

find_header-ReadSheet :
    (n : ℕ) (sheet : List (Option (List Cell))) {table : Table}
    → find_header n sheet ≡ done (some table)
    → ReadSheet n sheet table
unfolding find_header
find_header-ReadSheet n [] h = absurd (ground (arith, h))
find_header-ReadSheet n (none ∷ sheet) h = absurd (ground (arith, h))
find_header-ReadSheet n (some cells ∷ sheet) {table} h =
    elim (Bool-cases (ltb header_scan_rows n)) [
      | inl far ↦ absurd (ground (arith, rw far at h))
      | inr near ↦ elim (Option-cases (header_map cells)) [
        | inl e ↦
            (ground (arith, near), inr (e, find_header-ReadSheet (n + 1) sheet (rw (near, e) at h)))
        | inr (m, e) ↦
            elim (Read-cases (
              read_rows (record { mapping = m; rows = []; lost_digit_rows = [] }) n (n + 1)
                sheet)) [
                  | inl (table1, r) ↦
                      let found : ◌≡◌ {A = Read (Option Table)} (done (some table1))
                          (done (some table)) =
                        rw (near, e, r) at h in
                      let same : table1 ≡ table = cc in
                      (
                        ground (arith, near),
                        inl (
                          m,
                          e,
                          subst (ReadFrom m (n + 1) sheet) same
                              (header-ReadFrom m n (n + 1) sheet r),
                        ),
                      )
                  | inr (why, r) ↦ absurd (ground (arith, rw (near, e, r) at h))
                ]
      ]
    ]

ReadSheet-Bounded :
    (n : ℕ) (sheet : List (Option (List Cell))) (table : Table)
    → ReadSheet n sheet table
    → (length table.rows ≤ max_payout_rows) × EachCapped table.rows
ReadSheet-Bounded n [] table h = absurd h
ReadSheet-Bounded n (none ∷ sheet) table h = absurd h
ReadSheet-Bounded n (some cells ∷ sheet) table (near, inl (m, e, (known, same, rows, room))) =
    (room, subst EachCapped (sym rows) (payments-Capped m (n + 1) sheet))
ReadSheet-Bounded n (some cells ∷ sheet) table (near, inr (e, later)) =
    ReadSheet-Bounded (n + 1) sheet table later

-- A table of the first sheet with a header.
abbrev pub ReadFile : List (List (Option (List Cell))) → Table → Type 0
ReadFile [] table = ⊥
ReadFile (sheet ∷ sheets) table =
    ReadSheet 1 sheet table ⊎ ((find_header 1 sheet ≡ done none) × ReadFile sheets table)

ReadFile-Bounded :
    (sheets : List (List (Option (List Cell)))) (table : Table)
    → ReadFile sheets table
    → (length table.rows ≤ max_payout_rows) × EachCapped table.rows
ReadFile-Bounded [] table h = absurd h
ReadFile-Bounded (sheet ∷ sheets) table (inl h) = ReadSheet-Bounded 1 sheet table h
ReadFile-Bounded (sheet ∷ sheets) table (inr (none_here, h)) = ReadFile-Bounded sheets table h

full_table :
    (table1 : Table) {table : Table}
    → chosen (done (some table1)) (refused FileError.no_header) ≡ done table
    → (0 < length table.rows) × (table1 ≡ table)
full_table table1 {table} h = elim (Bool-cases (length table1.rows == 0)) [
  | inl blank ↦ absurd (ground (arith, rw blank at h))
  | inr full ↦
      let same : table1 ≡ table = done_inj (rw full at h) in
      (subst (λ t. 0 < length t.rows) same (ground (arith, full)), same)
]

chosen-ReadFile :
    (sheet : List (Option (List Cell))) (sheets : List (List (Option (List Cell))))
    (r : Read (Option Table)) {table : Table}
    → find_header 1 sheet ≡ r
    → chosen r (parse_sheets sheets) ≡ done table
    → (parse_sheets sheets ≡ done table → (0 < length table.rows) × ReadFile sheets table)
    → (0 < length table.rows) × ReadFile (sheet ∷ sheets) table
chosen-ReadFile sheet sheets (refused why) e h later = absurd (ground (arith, h))
chosen-ReadFile sheet sheets (done none) e h later =
    let (some_row, file) = later h in (some_row, inr (e, file))
chosen-ReadFile sheet sheets (done (some table1)) e h later =
    let (some_row, same) = full_table table1 h in
    (some_row, inl (subst (ReadSheet 1 sheet) same (find_header-ReadSheet 1 sheet e)))

parse_sheets-ReadFile :
    (sheets : List (List (Option (List Cell)))) {table : Table}
    → parse_sheets sheets ≡ done table
    → (0 < length table.rows) × ReadFile sheets table
unfolding parse_sheets
parse_sheets-ReadFile [] h = absurd (ground (arith, h))
parse_sheets-ReadFile (sheet ∷ sheets) h =
    chosen-ReadFile sheet sheets (find_header 1 sheet) refl h (parse_sheets-ReadFile sheets)

-- A payout file that is accepted has between one and 5,000 payments, each amount within ten billion
-- rupees of either sign. They are the payments of all rows below a header in the first 15 rows of
-- the first sheet with one, in order: no row was refused by the row reader, and a row without a
-- payment is one for which it gave none.
pub parse_sheets_lem :
    (sheets : List (List (Option (List Cell)))) {table : Table}
    → parse_sheets sheets ≡ done table
    → (0 < length table.rows)
      × (length table.rows ≤ max_payout_rows)
      × EachCapped table.rows
      × ReadFile sheets table
parse_sheets_lem sheets {table} h =
    let (some_row, file) = parse_sheets-ReadFile sheets h in
    let (room, fits) = ReadFile-Bounded sheets table file in (some_row, room, fits, file)
