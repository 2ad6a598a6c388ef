-- ===== src/Payout/Tests.antt =====
-- A payout file that agrees with the register, and one that does not.
use avora_be.Prelude.{
  ℕ, ◌≡◌, ◌≢◌, refl, Bool, true, false, Option, some, List, [], ◌∷◌, is_some, length,
}
use avora_be.Prelude.Int.{ℤ, pos, ◌+ℤ◌}
use avora_be.Prelude.Dict.{Dict, lookup}
use avora_be.Payout.{
  PaidLine, reconcile, unmatched, account_mismatches, paid_by_employee, employee_mismatches,
  employee_mismatch, not_paid,
}
use avora_be.Payout.Groups.{payments}
use avora_be.Payout.Clean.{strays, diverted, clean-pays_each_once, clean-pays_nobody_else}

abbrev line : ℕ → Option ℕ → ℕ → Bool → PaidLine
line i who amount bad = record {
  index = i;
  employee_id = who;
  amount_minor = pos amount;
  failed = bad;
  account_differs = false;
}

abbrev due : Dict ℤ
due = (1, pos 5000) ∷ (2, pos 7000) ∷ []

-- The first transfer to 2 failed at the bank and was repeated.
abbrev file : List PaidLine
file = line 0 (some 2) 7000 true ∷ line 1 (some 1) 5000 false ∷ line 2 (some 2) 7000 false ∷ []

agrees : reconcile due file ≡ []
unfolding reconcile unmatched account_mismatches paid_by_employee employee_mismatches
    employee_mismatch not_paid ◌+ℤ◌
agrees = refl

-- Paid twice, and one person not at all.
twice : length (reconcile due (line 0 (some 1) 5000 false ∷ line 1 (some 1) 5000 false ∷ [])) ≡ 2
unfolding reconcile unmatched account_mismatches paid_by_employee employee_mismatches
    employee_mismatch not_paid ◌+ℤ◌
twice = refl

clean-pays_each_once_example :
    (l : PaidLine) × (payments 2 file ≡ l ∷ []) × (l.amount_minor ≡ pos 7000)
clean-pays_each_once_example = clean-pays_each_once due file 2 agrees refl

clean-pays_nobody_else_example :
    (strays file ≡ [])
    × (diverted file ≡ [])
    × ((k : ℕ) → payments k file ≢ [] → is_some (lookup k due) ≡ true)
clean-pays_nobody_else_example = clean-pays_nobody_else due file agrees
