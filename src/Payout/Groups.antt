-- ===== src/Payout/Groups.antt =====
-- The grouping of payments by employee, app/services/payout_reconcile.py, `_paid_by_employee`.
use mathlib.Core.List.{append-nil, append_assoc}
use avora_be.Prelude.{
  ℕ, ◌≡◌, ◌≢◌, refl, sym, ap, subst, true, false, ◌&&◌, Option, none, some, List, [], ◌∷◌, ◌++◌,
  inl, inr, arith, ◌==◌, opt_eq, if◌then◌else◌, keep, Bool-cases,
}
use avora_be.Prelude.Dict.{
  Dict, lookup, lookup-insert_same, lookup-insert_other, lookup-insert_cases,
}
use avora_be.Payout.{PaidLine, pays, add_line, add_opt, lines_of, group_lines, paid_by_employee}

-- The payments to one employee, in the order of the file.
abbrev pub payments : ℕ → List PaidLine → List PaidLine
payments k = keep (λ l. pays l && opt_eq l.employee_id k)

eqb_refl : (k : ℕ) → (k == k) ≡ true
eqb_refl k = ground arith

eqb_false : {j k : ℕ} → j ≢ k → (j == k) ≡ false
eqb_false ne = ground arith

-- Grouping a line adds it to its employee's lines, and to nobody else's.
add_opt-lines :
    (k : ℕ) (o : Option ℕ) (l : PaidLine) (d : Dict (List PaidLine))
    → lines_of (lookup k (add_opt o l d))
      ≡ lines_of (lookup k d) ++ (if opt_eq o k then l ∷ [] else [])
add_opt-lines k none l d = sym (append-nil _)
add_opt-lines k (some j) l d = elim (Bool-cases (j == k)) [
  | inl e ↦
      let jk : j ≡ k = ground arith in
      subst
        (λ x.
          lines_of (lookup k (add_opt (some x) l d))
          ≡ lines_of (lookup k d) ++ (if opt_eq (some x) k then l ∷ [] else []))
        (sym jk) (rw (lookup-insert_same k (lines_of (lookup k d) ++ (l ∷ [])) d, eqb_refl k) refl)
  | inr e ↦
      let kj : k ≢ j = λ same. absurd (ground arith) in
      rw (lookup-insert_other {j = k} {k = j} (lines_of (lookup j d) ++ (l ∷ [])) d kj, e)
        (sym (append-nil _))
]

group_lines-lines :
    (k : ℕ) (ls : List PaidLine) (d : Dict (List PaidLine))
    → lines_of (lookup k (group_lines ls d)) ≡ lines_of (lookup k d) ++ payments k ls
unfolding group_lines
group_lines-lines k [] d = sym (append-nil _)
group_lines-lines k (l ∷ ls) d = elim (Bool-cases (pays l)) [
  | inr e ↦ rw (e, group_lines-lines k ls d) refl
  | inl e ↦
      rw (e, group_lines-lines k ls (add_opt l.employee_id l d), add_opt-lines k l.employee_id l d)
        (elim (Bool-cases (opt_eq l.employee_id k)) [
          | inl mine ↦ rw mine (append_assoc (lines_of (lookup k d)) (l ∷ []) (payments k ls))
          | inr not_mine ↦
              rw not_mine (ap (λ z. z ++ payments k ls) (append-nil (lines_of (lookup k d))))
        ])
]

-- The lines grouped under an employee are that employee's payments.
pub paid_by_employee-payments :
    (k : ℕ) (ls : List PaidLine) → lines_of (lookup k (paid_by_employee ls)) ≡ payments k ls
unfolding paid_by_employee
paid_by_employee-payments k ls = group_lines-lines k ls []

-- The groups are never empty.
unfoldable pub NonEmpty : Dict (List PaidLine) → Type 0
NonEmpty d = (k : ℕ) → lookup k d ≢ some []

append-one : (xs : List PaidLine) (l : PaidLine) → xs ++ (l ∷ []) ≢ []
append-one [] l h = absurd (ground arith)
append-one (x ∷ xs) l h = absurd (ground arith)

add_line-NonEmpty :
    (k : ℕ) (l : PaidLine) (d : Dict (List PaidLine)) → NonEmpty d → NonEmpty (add_line k l d)
unfolding NonEmpty
add_line-NonEmpty k l d h j e =
    elim (lookup-insert_cases j k (lines_of (lookup k d) ++ (l ∷ [])) d e) [
      | inl (same, bad) ↦ absurd (append-one (lines_of (lookup k d)) l bad)
      | inr (other, old) ↦ h j old
    ]

add_opt-NonEmpty :
    (o : Option ℕ) (l : PaidLine) (d : Dict (List PaidLine)) → NonEmpty d → NonEmpty (add_opt o l d)
add_opt-NonEmpty none l d h = h
add_opt-NonEmpty (some k) l d h = add_line-NonEmpty k l d h

grown :
    (l : PaidLine) (d : Dict (List PaidLine))
    → NonEmpty d
    → NonEmpty (if pays l then add_opt l.employee_id l d else d)
grown l d h = elim (Bool-cases (pays l)) [
  | inr e ↦ rw e h
  | inl e ↦ rw e (add_opt-NonEmpty l.employee_id l d h)
]

pub group_lines-NonEmpty :
    (ls : List PaidLine) (d : Dict (List PaidLine)) → NonEmpty d → NonEmpty (group_lines ls d)
unfolding group_lines
group_lines-NonEmpty [] d h = h
group_lines-NonEmpty (l ∷ ls) d h = group_lines-NonEmpty ls _ (grown l d h)
