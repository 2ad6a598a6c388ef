-- ===== src/Payout.antt =====
-- Payout reconciliation: app/services/payout_reconcile.py. Account numbers, employee numbers and
-- e-mails are numbers standing for the normalised texts. Amounts are minor units, of either sign.
mod Groups
pub mod Clean
mod Tests
use avora_be.Prelude.{
  ℕ, zero, suc, ◌+◌, ◌-◌, Bool, true, false, not, ◌&&◌, ◌||◌, Option, none, some, List, [], ◌∷◌,
  ◌++◌, ltb, leb, ◌==◌, is_some, opt_eq, if◌then◌else◌, any, keep,
}
use avora_be.Prelude.Int.{ℤ, pos, negsuc, ◌+ℤ◌}
use avora_be.Prelude.Dict.{Dict, lookup, insert}

pub data MismatchKind : Type 0 where
  unmatched_row paid_not_expected duplicate_payment amount_mismatch expected_not_paid
        account_mismatch :
      MismatchKind

-- What a line of the file can be matched on, normalised.
pub record PayoutRow : Type 0 where
  pub employee_number : Option ℕ
  pub account_number : Option ℕ
  pub email : Option ℕ

pub record Identity : Type 0 where
  pub employee_id : ℕ
  pub employee_number : Option ℕ
  pub work_email : Option ℕ
  pub account_number : Option ℕ

-- `EmployeeIndex`: each lookup as the identities that it was built from.
abbrev pub carrying : (Identity → Option ℕ) → ℕ → List Identity → List ℕ
carrying key n [] = []
carrying key n (p ∷ ps) =
    let rest = carrying key n ps in
    if opt_eq (key p) n && not (any (◌==◌ p.employee_id) rest) then p.employee_id ∷ rest else rest

-- `found` holds exactly one employee.
abbrev pub sole : List ℕ → Option ℕ
sole [] = none
sole (k ∷ []) = some k
sole (k ∷ j ∷ ks) = none

abbrev by_key : (Identity → Option ℕ) → Option ℕ → List Identity → Option ℕ
by_key key none ps = none
by_key key (some n) ps = sole (carrying key n ps)

-- `match`: employee number, then account, then e-mail; an ambiguous key is skipped.
unfoldable pub match_row : List Identity → PayoutRow → Option ℕ
match_row ps row =
    let number = by_key (λ p. p.employee_number) row.employee_number ps in
    let account = by_key (λ p. p.account_number) row.account_number ps in
    if is_some number
    then number
    else if is_some account
    then account
    else by_key (λ p. p.work_email) row.email ps

pub record PaidLine : Type 0 where
  pub index : ℕ
  pub employee_id : Option ℕ
  pub amount_minor : ℤ
  pub failed : Bool
  pub account_differs : Bool

abbrev pub is_positive : ℤ → Bool
is_positive (pos zero) = false
is_positive (pos (suc n)) = true
is_positive (negsuc n) = false

abbrev pub pays : PaidLine → Bool
pays l = not l.failed && is_positive l.amount_minor

pub record MismatchDraft : Type 0 where
  pub kind : MismatchKind
  pub employee_id : Option ℕ
  pub row_index : Option ℕ
  pub expected_minor : Option ℤ
  pub paid_minor : Option ℤ

abbrev draft : MismatchKind → Option ℕ → Option ℕ → Option ℤ → Option ℤ → MismatchDraft
draft kd e i x p = record {
  kind = kd;
  employee_id = e;
  row_index = i;
  expected_minor = x;
  paid_minor = p;
}

-- `_unmatched`
unfoldable pub unmatched : List PaidLine → List MismatchDraft
unmatched [] = []
unmatched (l ∷ ls) =
    if not (is_some l.employee_id) && pays l
    then draft MismatchKind.unmatched_row none (some l.index) none (some l.amount_minor)
      ∷ unmatched ls
    else unmatched ls

-- `grouped[k]` of the `defaultdict(list)`.
abbrev pub lines_of : Option (List PaidLine) → List PaidLine
lines_of none = []
lines_of (some ls) = ls

-- One more line under an employee's key.
abbrev pub add_line : ℕ → PaidLine → Dict (List PaidLine) → Dict (List PaidLine)
add_line k l d = insert k (lines_of (lookup k d) ++ (l ∷ [])) d

abbrev pub add_opt : Option ℕ → PaidLine → Dict (List PaidLine) → Dict (List PaidLine)
add_opt none l d = d
add_opt (some k) l d = add_line k l d

-- The loop of `_paid_by_employee`.
unfoldable pub group_lines : List PaidLine → Dict (List PaidLine) → Dict (List PaidLine)
group_lines [] d = d
group_lines (l ∷ ls) d = group_lines ls (if pays l then add_opt l.employee_id l d else d)

unfoldable pub paid_by_employee : List PaidLine → Dict (List PaidLine)
unfolding group_lines
paid_by_employee ls = group_lines ls []

-- `expected.get(line.employee_id)`
abbrev expected_of : Option ℕ → Dict ℤ → Option ℤ
expected_of none d = none
expected_of (some k) d = lookup k d

-- `_account_mismatches`
unfoldable pub account_mismatches : Dict ℤ → List PaidLine → List MismatchDraft
account_mismatches expected [] = []
account_mismatches expected (l ∷ ls) =
    if is_some l.employee_id && pays l && l.account_differs
    then draft MismatchKind.account_mismatch l.employee_id (some l.index)
        (expected_of l.employee_id expected) (some l.amount_minor)
      ∷ account_mismatches expected ls
    else account_mismatches expected ls

abbrev pub total : List PaidLine → ℤ
total [] = pos 0
total (l ∷ ls) = l.amount_minor +ℤ total ls

-- `paid[0].index`; a group is never empty.
abbrev first_index : List PaidLine → Option ℕ
first_index [] = none
first_index (l ∷ ls) = some l.index

abbrev pub eq_int : ℤ → ℤ → Bool
eq_int (pos m) (pos n) = m == n
eq_int (negsuc m) (negsuc n) = m == n
eq_int _ _ = false

abbrev pub more_than_one : List PaidLine → Bool
more_than_one [] = false
more_than_one (l ∷ []) = false
more_than_one (l ∷ m ∷ ls) = true

-- `_employee_mismatch`, as no draft or one.
unfoldable pub employee_mismatch : ℕ → List PaidLine → Option ℤ → List MismatchDraft
employee_mismatch k paid none =
    draft MismatchKind.paid_not_expected (some k) (first_index paid) none (some (total paid)) ∷ []
employee_mismatch k paid (some due) =
    if more_than_one paid
    then draft MismatchKind.duplicate_payment (some k) (first_index paid) (some due)
        (some (total paid))
      ∷ []
    else if not (eq_int (total paid) due)
    then draft MismatchKind.amount_mismatch (some k) (first_index paid) (some due)
        (some (total paid))
      ∷ []
    else []

-- The loop over `paid.items()`.
unfoldable pub employee_mismatches : Dict ℤ → Dict (List PaidLine) → List MismatchDraft
unfolding employee_mismatch
employee_mismatches expected [] = []
employee_mismatches expected ((k, paid) ∷ rest) =
    employee_mismatch k paid (lookup k expected) ++ employee_mismatches expected rest

-- The loop over `expected.items()`.
unfoldable pub not_paid : Dict ℤ → Dict (List PaidLine) → List MismatchDraft
not_paid [] paid = []
not_paid ((k, due) ∷ rest) paid =
    if is_some (lookup k paid)
    then not_paid rest paid
    else draft MismatchKind.expected_not_paid (some k) none (some due) none ∷ not_paid rest paid

unfoldable pub reconcile : Dict ℤ → List PaidLine → List MismatchDraft
unfolding unmatched account_mismatches paid_by_employee employee_mismatches not_paid
reconcile expected ls =
    unmatched ls
    ++ (account_mismatches expected ls
        ++ (employee_mismatches expected (paid_by_employee ls)
            ++ not_paid expected (paid_by_employee ls)))
