-- ===== src/PayoutFile/Rows/Accepted.antt =====
-- What an accepted payout file holds: app/core/payout_file.py, `parse_payout_file`.
use mathlib.Core.List.{append_assoc, append-nil}
use avora_be.Prelude.{
  ℕ, ◌+◌, ◌-◌, ◌≤◌, ◌<◌, ◌≡◌, ◌∙◌, refl, ap, sym, subst, Bool, true, false, Option, none, some,
  List, [], ◌∷◌, ◌++◌, length, length-append, ltb, leb, ◌⊎◌, inl, inr, arith, Bool-cases,
}
use avora_be.PayoutFile.Amount.{Cell}
use avora_be.PayoutFile.Header.{Mapping}
use avora_be.PayoutFile.Rows.{
  FileError, max_scanned_rows, ParsedPayoutRow, Read, done, refused, Table, max_payout_rows,
  parse_row, take_parsed, take_row, read_rows,
}

-- The row's answer is not an error.
abbrev pub is_read : Read (Option ParsedPayoutRow) → Bool
is_read (done o) = true
is_read (refused e) = false

-- The payment that a row gives, if any.
abbrev pub payment_of : Read (Option ParsedPayoutRow) → List ParsedPayoutRow
payment_of (done (some row)) = row ∷ []
payment_of (done none) = []
payment_of (refused e) = []

-- The payments of the rows of a sheet from a row number on, in order.
abbrev pub payments : Mapping → ℕ → List (Option (List Cell)) → List ParsedPayoutRow
payments mapping n [] = []
payments mapping n (none ∷ sheet) = payments mapping (n + 1) sheet
payments mapping n (some cells ∷ sheet) =
    payment_of (parse_row cells mapping n) ++ payments mapping (n + 1) sheet

-- Each row came from the reader and was understood.
abbrev pub Understood : Mapping → ℕ → List (Option (List Cell)) → Type 0
Understood mapping n [] = Unit
Understood mapping n (none ∷ sheet) = ⊥
Understood mapping n (some cells ∷ sheet) =
    (is_read (parse_row cells mapping n) ≡ true) × Understood mapping (n + 1) sheet

pub done_inj {ℓ} : {A : Type ℓ} {a b : A} → ◌≡◌ {A = Read A} (done a) (done b) → a ≡ b
done_inj h = cc

leb-false : {a b : ℕ} → leb a b ≡ false → b < a
leb-false h = ground arith

take_parsed-done :
    (table : Table) (cells : List Cell) (n : ℕ) (r : Read (Option ParsedPayoutRow)) {table' : Table}
    → take_parsed table cells n r ≡ done table'
    → (is_read r ≡ true)
      × (table'.mapping ≡ table.mapping)
      × (table'.rows ≡ table.rows ++ payment_of r)
      × (length table.rows ≤ max_payout_rows → length table'.rows ≤ max_payout_rows)
take_parsed-done table cells n (refused why) h = absurd (ground arith)
take_parsed-done table cells n (done none) h =
    let same = done_inj h in
    (
      refl,
      ap (λ t. t.mapping) (sym same),
      ap (λ t. t.rows) (sym same) ∙ sym (append-nil table.rows),
      λ le. subst (λ t. length t.rows ≤ max_payout_rows) same le,
    )
take_parsed-done table cells n (done (some row)) h =
    elim (Bool-cases (leb max_payout_rows (length table.rows))) [
      | inl full ↦ absurd (ground (arith, rw full at h))
      | inr room ↦
          let same = done_inj (rw room at h) in
          let rows = ap (λ t. t.rows) (sym same) in
          (
            refl,
            ap (λ t. t.mapping) (sym same),
            rows,
            λ le.
                subst (λ xs. length xs ≤ max_payout_rows) (sym rows)
                  (omega (arith, length-append table.rows (row ∷ []), leb-false room)),
          )
    ]

take_row-done :
    (table : Table) (cells : List Cell) (n : ℕ) {table' : Table}
    → take_row table cells n ≡ done table'
    → (is_read (parse_row cells table.mapping n) ≡ true)
      × (table'.mapping ≡ table.mapping)
      × (table'.rows ≡ table.rows ++ payment_of (parse_row cells table.mapping n))
      × (length table.rows ≤ max_payout_rows → length table'.rows ≤ max_payout_rows)
unfolding take_row
take_row-done table cells n h = take_parsed-done table cells n (parse_row cells table.mapping n) h

pub Read-cases {ℓ} :
    {A : Type ℓ} (r : Read A) → ((a : A) × (r ≡ done a)) ⊎ ((e : FileError) × (r ≡ refused e))
Read-cases (done a) = inl (a, refl)
Read-cases (refused e) = inr (e, refl)

-- The rows of an accepted sheet below its header.
abbrev pub Accepted : Table → ℕ → List (Option (List Cell)) → Table → Type 0
Accepted table n sheet table' =
    Understood table.mapping n sheet
    × (table'.mapping ≡ table.mapping)
    × (table'.rows ≡ table.rows ++ payments table.mapping n sheet)
    × (length table.rows ≤ max_payout_rows → length table'.rows ≤ max_payout_rows)

-- One row more in front.
Accepted-cons :
    (table table1 table' : Table) (n : ℕ) (cells : List Cell) (sheet : List (Option (List Cell)))
    → take_row table cells n ≡ done table1
    → Accepted table1 (n + 1) sheet table'
    → Accepted table n (some cells ∷ sheet) table'
Accepted-cons table table1 table' n cells sheet h (known, mapping, rows, room) =
    let (is, mapping1, rows1, room1) = take_row-done table cells n h in
    (
      (is, subst (λ m. Understood m (n + 1) sheet) mapping1 known),
      mapping ∙ mapping1,
      rows
          ∙ ap (λ m. table1.rows ++ payments m (n + 1) sheet) mapping1
          ∙ ap (λ xs. xs ++ payments table.mapping (n + 1) sheet) rows1
          ∙ append_assoc table.rows (payment_of (parse_row cells table.mapping n))
              (payments table.mapping (n + 1) sheet),
      λ le. room (room1 le),
    )

pub read_rows-Accepted :
    (table : Table) (header n : ℕ) (sheet : List (Option (List Cell))) {table' : Table}
    → read_rows table header n sheet ≡ done table'
    → Accepted table n sheet table'
unfolding read_rows
read_rows-Accepted table header n [] {table'} h =
    let same = done_inj h in
    (
      tt,
      ap (λ t. t.mapping) (sym same),
      ap (λ t. t.rows) (sym same) ∙ sym (append-nil table.rows),
      λ le. subst (λ t. length t.rows ≤ max_payout_rows) same le,
    )
read_rows-Accepted table header n (none ∷ sheet) h = absurd (ground (arith, h))
read_rows-Accepted table header n (some cells ∷ sheet) {table'} h =
    elim (Bool-cases (ltb max_scanned_rows (n - header))) [
      | inl far ↦ absurd (ground (arith, rw far at h))
      | inr near ↦ elim (Read-cases (take_row table cells n)) [
        | inl (table1, e) ↦
            Accepted-cons table table1 table' n cells sheet e
              (read_rows-Accepted table1 header (n + 1) sheet (rw (near, e) at h))
        | inr (why, e) ↦ absurd (ground (arith, rw (near, e) at h))
      ]
    ]
