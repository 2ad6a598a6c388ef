-- ===== src/Payout/Clean.antt =====
-- What an empty report of app/services/payout_reconcile.py, `reconcile`, says of the payments.
use avora_be.Prelude.{
  ℕ, ◌≡◌, ◌≢◌, refl, sym, ◌∙◌, ap, subst, true, not, ◌&&◌, none, some, List, [], ◌∷◌, ◌++◌, inl,
  inr, arith, ◌==◌, is_some, keep, Bool-cases, Option-cases,
}
use avora_be.Prelude.Int.{ℤ, pos, negsuc, ◌+ℤ◌}
use avora_be.Prelude.Dict.{Dict, lookup}
use avora_be.Payout.{
  PaidLine, MismatchDraft, pays, lines_of, total, eq_int, paid_by_employee, unmatched,
  account_mismatches, employee_mismatch, employee_mismatches, not_paid, reconcile,
}
use avora_be.Payout.Groups.{payments, paid_by_employee-payments, NonEmpty, group_lines-NonEmpty}

append-eq_nil : (xs ys : List MismatchDraft) → xs ++ ys ≡ [] → (xs ≡ []) × (ys ≡ [])
append-eq_nil [] ys h = (refl, h)
append-eq_nil (x ∷ xs) ys h = absurd (ground arith)

-- No draft from the loop over the groups: none from any group.
employee_mismatches-each :
    (expected : Dict ℤ) (d : Dict (List PaidLine)) (k : ℕ) {paid : List PaidLine}
    → employee_mismatches expected d ≡ []
    → lookup k d ≡ some paid
    → employee_mismatch k paid (lookup k expected) ≡ []
unfolding employee_mismatches
employee_mismatches-each expected [] k h e = absurd (ground arith)
employee_mismatches-each expected ((j, ls) ∷ d) k {paid} h e =
    let (now, later) =
      append-eq_nil (employee_mismatch j ls (lookup j expected)) (employee_mismatches expected d)
        h in
    elim (Bool-cases (k == j)) [
      | inl same ↦
          let kj : k ≡ j = ground arith in
          let at : ls ≡ paid = ground arith in
          subst (λ x. employee_mismatch x paid (lookup x expected) ≡ []) (sym kj)
            (subst (λ x. employee_mismatch j x (lookup j expected) ≡ []) at now)
      | inr other ↦ employee_mismatches-each expected d k later (ground arith)
    ]

not_paid-each :
    (expected : Dict ℤ) (d : Dict (List PaidLine)) (k : ℕ) {due : ℤ}
    → not_paid expected d ≡ []
    → lookup k expected ≡ some due
    → is_some (lookup k d) ≡ true
unfolding not_paid
not_paid-each [] d k h e = absurd (ground arith)
not_paid-each ((j, x) ∷ rest) d k {due} h e = elim (Bool-cases (is_some (lookup j d))) [
  | inr missing ↦ absurd (ground arith)
  | inl found ↦ elim (Bool-cases (k == j)) [
    | inl same ↦
        let kj : k ≡ j = ground arith in subst (λ y. is_some (lookup y d) ≡ true) (sym kj) found
    | inr other ↦ not_paid-each rest d k {due = due} (ground arith) (ground arith)
  ]
]

eq_int_sound : (a b : ℤ) → eq_int a b ≡ true → a ≡ b
eq_int_sound (pos m) (pos n) h = ap pos (ground arith)
eq_int_sound (pos m) (negsuc n) h = absurd (ground arith)
eq_int_sound (negsuc m) (pos n) h = absurd (ground arith)
eq_int_sound (negsuc m) (negsuc n) h = ap negsuc (ground arith)

total-single : (l : PaidLine) → total (l ∷ []) ≡ l.amount_minor
unfolding ◌+ℤ◌
total-single l = elim l.amount_minor as (λ a. a +ℤ pos 0 ≡ a) [
  | pos n ↦ ground arith
  | negsuc n ↦ ground arith
]

-- One payment and it is the amount due.
single_payment :
    (k : ℕ) (paid : List PaidLine) (due : ℤ)
    → employee_mismatch k paid (some due) ≡ []
    → paid ≢ []
    → (l : PaidLine) × (paid ≡ l ∷ []) × (l.amount_minor ≡ due)
unfolding employee_mismatch
single_payment k [] due h ne = absurd (ne refl)
single_payment k (l ∷ []) due h ne = elim (Bool-cases (eq_int (total (l ∷ [])) due)) [
  | inl e ↦ (l, refl, sym (total-single l) ∙ eq_int_sound _ due e)
  | inr e ↦ absurd (ground arith)
]
single_payment k (l ∷ m ∷ ls) due h ne = absurd (ground arith)

-- The four parts of an empty report.
clean-parts :
    (expected : Dict ℤ) (ls : List PaidLine)
    → reconcile expected ls ≡ []
    → (unmatched ls ≡ [])
      × (account_mismatches expected ls ≡ [])
      × (employee_mismatches expected (paid_by_employee ls) ≡ [])
      × (not_paid expected (paid_by_employee ls) ≡ [])
unfolding reconcile
clean-parts expected ls h =
    let (a, rest) = append-eq_nil (unmatched ls) _ h in
    let (b, rest') = append-eq_nil (account_mismatches expected ls) _ rest in
    let (c, d) = append-eq_nil (employee_mismatches expected (paid_by_employee ls)) _ rest' in
    (a, b, c, d)

-- If the report is empty, everybody who is due an amount has exactly one payment in the file (a
-- line that did not fail and has a positive amount), and it is that amount.
pub clean-pays_each_once :
    (expected : Dict ℤ) (ls : List PaidLine) (k : ℕ) {due : ℤ}
    → reconcile expected ls ≡ []
    → lookup k expected ≡ some due
    → (l : PaidLine) × (payments k ls ≡ l ∷ []) × (l.amount_minor ≡ due)
unfolding paid_by_employee NonEmpty
clean-pays_each_once expected ls k {due} h e =
    let (_, _, c, d) = clean-parts expected ls h in
    let found = not_paid-each expected (paid_by_employee ls) k d e in
    elim (Option-cases (lookup k (paid_by_employee ls))) [
      | inl gone ↦ absurd (ground (arith, found, gone))
      | inr (paid, at) ↦
          let fine =
            subst (λ o. employee_mismatch k paid o ≡ []) e
              (employee_mismatches-each expected _ k c at) in
          let grouped : paid ≡ payments k ls =
            ap lines_of (sym at) ∙ paid_by_employee-payments k ls in
          let (l, one, amount) = single_payment k paid due fine (λ none_.
            group_lines-NonEmpty ls [] (λ j bad. absurd (ground arith)) k (at ∙ ap some none_)) in
          (l, sym grouped ∙ one, amount)
    ]

-- The payments that nobody could be matched to.
abbrev pub strays : List PaidLine → List PaidLine
strays = keep (λ l. pays l && not (is_some l.employee_id))

-- The payments into another account than the one on file.
abbrev pub diverted : List PaidLine → List PaidLine
diverted = keep (λ l. pays l && is_some l.employee_id && l.account_differs)

unmatched-strays : (ls : List PaidLine) → unmatched ls ≡ [] → strays ls ≡ []
unfolding unmatched
unmatched-strays [] h = refl
unmatched-strays (l ∷ ls) h = ground (arith, unmatched-strays ls)

account_mismatches-diverted :
    (expected : Dict ℤ) (ls : List PaidLine)
    → account_mismatches expected ls ≡ []
    → diverted ls ≡ []
unfolding account_mismatches
account_mismatches-diverted expected [] h = refl
account_mismatches-diverted expected (l ∷ ls) h =
    ground (arith, account_mismatches-diverted expected ls)

unexpected : (k : ℕ) (paid : List PaidLine) → employee_mismatch k paid none ≢ []
unfolding employee_mismatch
unexpected k paid h = absurd (ground arith)

-- If the report is empty, no payment is without a person, none went to another account than the
-- one on file, and everybody who was paid was due an amount.
pub clean-pays_nobody_else :
    (expected : Dict ℤ) (ls : List PaidLine)
    → reconcile expected ls ≡ []
    → (strays ls ≡ [])
      × (diverted ls ≡ [])
      × ((k : ℕ) → payments k ls ≢ [] → is_some (lookup k expected) ≡ true)
clean-pays_nobody_else expected ls h =
    let (a, b, c, d) = clean-parts expected ls h in
    (
      unmatched-strays ls a,
      account_mismatches-diverted expected ls b,
      λ k paid. elim (Option-cases (lookup k expected)) [
        | inr (due, e) ↦ rw e refl
        | inl e ↦ elim (Option-cases (lookup k (paid_by_employee ls))) [
          | inl gone ↦ absurd (paid (sym (paid_by_employee-payments k ls) ∙ ap lines_of gone))
          | inr (group, at) ↦ absurd (
              unexpected k group (
                subst (λ o. employee_mismatch k group o ≡ []) e
                  (employee_mismatches-each expected _ k c at)))
        ]
      ],
    )
