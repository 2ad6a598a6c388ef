-- ===== src/Staff/Tree.antt =====
-- The recursive query `reporting_tree_ids` of app/repositories/employee.py against the chains of
-- managers that it is for.
use avora_be.Prelude.{
  ℕ, zero, suc, ◌≤◌, ◌<◌, ◌≡◌, ◌↔◌, ◌⊎◌, inl, inr, refl, sym, ◌∙◌, Bool, true, false, not, ◌&&◌,
  ◌||◌, Option, none, some, List, [], ◌∷◌, ◌++◌, length, arith, ◌==◌, if◌then◌else◌, opt_eq,
  Bool-cases,
}
use mathlib.Core.List.{append-nil}
use avora_be.Prelude.Dict.{Dict, any_rows}
use avora_be.Staff.{Employee, ids_where}
use avora_be.Staff.Scope.{
  member, keys_where, manager_in, new_reports, tree_rounds, reporting_tree_ids,
}

-- A row on file says that the employee reports to the manager.
abbrev pub reports_to : Dict Employee → ℕ → ℕ → Bool
reports_to es manager k = any_rows (λ j e. j == k && opt_eq e.manager_id manager) es

-- A chain of reports, of any length, leads from the employee up to the manager.
pub data Below (es : Dict Employee) (manager : ℕ) : ℕ → Type 0 where
  direct : {k : ℕ} → reports_to es manager k ≡ true → Below es manager k
  further : {j k : ℕ} → Below es manager j → reports_to es j k ≡ true → Below es manager k

member-append : (k : ℕ) (xs ys : List ℕ) → member k (xs ++ ys) ≡ (member k xs || member k ys)
member-append k [] ys = refl
member-append k (x ∷ xs) ys = ground (arith, member-append k xs ys)

member-keys_where :
    (p : ℕ → Employee → Bool) (k : ℕ) (es : Dict Employee)
    → member k (keys_where p es) ≡ any_rows (λ j e. j == k && p j e) es
member-keys_where p k [] = refl
member-keys_where p k ((j, e) ∷ es) = ground (arith, member-keys_where p k es)

member-ids_where :
    (p : Employee → Bool) (k : ℕ) (es : Dict Employee)
    → member k (ids_where p es) ≡ any_rows (λ j e. j == k && p e) es
member-ids_where p k [] = refl
member-ids_where p k ((j, e) ∷ es) = ground (arith, member-ids_where p k es)

manager_in_lem :
    (tree : List ℕ) (m : ℕ) (o : Option ℕ)
    → opt_eq o m ≡ true
    → member m tree ≡ true
    → manager_in tree o ≡ true
manager_in_lem tree m none h im = h
manager_in_lem tree m (some x) h im = ground arith

in_manager :
    (tree : List ℕ) (o : Option ℕ)
    → manager_in tree o ≡ true
    → (m : ℕ) × (member m tree ≡ true) × (opt_eq o m ≡ true)
in_manager tree none h = absurd (ground arith)
in_manager tree (some m) h = (m, h, ground arith)

-- The rows that a round adds.
abbrev joins : List ℕ → ℕ → Employee → Bool
joins tree j e = manager_in tree e.manager_id && not (member j tree)

-- A row with a manager in the tree reports to a member of it.
manager_of_row :
    (tree : List ℕ) (k : ℕ) (es : Dict Employee)
    → any_rows (λ j e. j == k && joins tree j e) es ≡ true
    → (m : ℕ) × (member m tree ≡ true) × (reports_to es m k ≡ true)
manager_of_row tree k [] h = absurd (ground arith)
manager_of_row tree k ((j, e) ∷ es) h = elim (Bool-cases (j == k && joins tree j e)) [
  | inl here ↦
      let (m, im, is) = in_manager tree e.manager_id (ground arith) in (m, im, ground arith)
  | inr later ↦ let (m, im, is) = manager_of_row tree k es (ground arith) in (m, im, ground arith)
]

-- A report of a member is a member, or is new.
report_of_member :
    (tree : List ℕ) (m k : ℕ) (es : Dict Employee)
    → member m tree ≡ true
    → member k tree ≡ false
    → reports_to es m k ≡ true
    → any_rows (λ j e. j == k && joins tree j e) es ≡ true
report_of_member tree m k [] im out h = h
report_of_member tree m k ((j, e) ∷ es) im out h =
    ground (arith, report_of_member tree m k es, manager_in_lem tree m e.manager_id)

-- The rows that are not in the tree yet.
abbrev outside : List ℕ → Dict Employee → ℕ
outside tree [] = 0
outside tree ((j, e) ∷ es) = if member j tree then outside tree es else suc (outside tree es)

outside-append-le :
    (tree new : List ℕ) (es : Dict Employee) → outside (tree ++ new) es ≤ outside tree es
outside-append-le tree new [] = omega arith
outside-append-le tree new ((j, e) ∷ es) =
    ground (arith, outside-append-le tree new es, member-append j tree new)

-- A row outside that the new part holds makes the count smaller.
outside-append-lt :
    (tree new : List ℕ) (k : ℕ) (es : Dict Employee)
    → any_rows (λ j e. j == k && joins tree j e) es ≡ true
    → member k new ≡ true
    → outside (tree ++ new) es < outside tree es
outside-append-lt tree new k [] h im = absurd (ground arith)
outside-append-lt tree new k ((j, e) ∷ es) h im = ground (
  arith,
  outside-append-lt tree new k es,
  outside-append-le tree new es,
  member-append j tree new,
)

outside-le-length : (tree : List ℕ) (es : Dict Employee) → outside tree es ≤ length es
outside-le-length tree [] = omega arith
outside-le-length tree ((j, e) ∷ es) = ground (arith, outside-le-length tree es)

new_reports_row :
    (k : ℕ) (es : Dict Employee) (tree : List ℕ)
    → member k (new_reports es tree) ≡ any_rows (λ j e. j == k && joins tree j e) es
unfolding new_reports
new_reports_row k es tree = member-keys_where (joins tree) k es

List-cases : (xs : List ℕ) → (xs ≡ []) ⊎ ((k : ℕ) × (member k xs ≡ true))
List-cases [] = inl refl
List-cases (x ∷ xs) = inr (x, ground arith)

-- Nothing new, or fewer rows outside.
round_cases :
    (es : Dict Employee) (tree : List ℕ)
    → (new_reports es tree ≡ []) ⊎ (outside (tree ++ new_reports es tree) es < outside tree es)
round_cases es tree = elim (List-cases (new_reports es tree)) [
  | inl none_new ↦ inl none_new
  | inr (k, im) ↦
      inr (
        outside-append-lt tree (new_reports es tree) k es (sym (new_reports_row k es tree) ∙ im) im)
]

still :
    (n : ℕ) (es : Dict Employee) (tree : List ℕ)
    → new_reports es tree ≡ []
    → tree_rounds n es tree ≡ tree
unfolding tree_rounds
still zero es tree h = refl
still (suc n) es tree h = rw (h, append-nil) (still n es tree h)

-- The rounds are enough: after them no row is left to add.
rounds_closed :
    (n : ℕ) (es : Dict Employee) (tree : List ℕ)
    → outside tree es ≤ n
    → new_reports es (tree_rounds n es tree) ≡ []
unfolding tree_rounds
rounds_closed zero es tree h = elim (round_cases es tree) [
  | inl none_new ↦ none_new
  | inr fewer ↦ absurd (omega arith)
]
rounds_closed (suc n) es tree h = elim (round_cases es tree) [
  | inl none_new ↦ rw (none_new, append-nil, still n es tree none_new) none_new
  | inr fewer ↦ rounds_closed n es (tree ++ new_reports es tree) (omega arith)
]

-- A member stays one.
member-tree_rounds :
    (n : ℕ) (es : Dict Employee) (tree : List ℕ) (k : ℕ)
    → member k tree ≡ true
    → member k (tree_rounds n es tree) ≡ true
unfolding tree_rounds
member-tree_rounds zero es tree k h = h
member-tree_rounds (suc n) es tree k h =
    member-tree_rounds n es (tree ++ new_reports es tree) k
      (ground (arith, member-append k tree (new_reports es tree)))

module _ (es : Dict Employee) (manager : ℕ) where
  abbrev AllBelow : List ℕ → Type 0
  AllBelow tree = (k : ℕ) → member k tree ≡ true → Below es manager k

  round-AllBelow : (tree : List ℕ) → AllBelow tree → AllBelow (tree ++ new_reports es tree)
  round-AllBelow tree all k h = elim (Bool-cases (member k tree)) [
    | inl old ↦ all k old
    | inr new ↦
        let (m, im, is) =
          manager_of_row tree k es (
            ground
              (arith, new_reports_row k es tree, member-append k tree (new_reports es tree))) in
        Below.further (all m im) is
  ]

  rounds-AllBelow : (n : ℕ) (tree : List ℕ) → AllBelow tree → AllBelow (tree_rounds n es tree)
  unfolding tree_rounds
  rounds-AllBelow zero tree all = all
  rounds-AllBelow (suc n) tree all =
      rounds-AllBelow n (tree ++ new_reports es tree) (round-AllBelow tree all)

  directs : List ℕ
  directs = ids_where (λ e. opt_eq e.manager_id manager) es

  member-directs : (k : ℕ) → member k directs ≡ reports_to es manager k
  unfolding directs
  member-directs k = member-ids_where (λ e. opt_eq e.manager_id manager) k es

  Below-member : {k : ℕ} → Below es manager k → member k (reporting_tree_ids manager es) ≡ true
  unfolding reporting_tree_ids directs
  Below-member {k} (Below.direct is) =
      member-tree_rounds (length es) es directs k (member-directs k ∙ is)
  Below-member {k} (Below.further {j} below is) =
      let tree = reporting_tree_ids manager es in
      elim (Bool-cases (member k tree)) [
        | inl im ↦ im
        | inr out ↦
            let closed = rounds_closed (length es) es directs (outside-le-length directs es) in
            absurd (
              ground (
                arith,
                closed,
                new_reports_row k es tree,
                report_of_member tree j k es (Below-member below) out is,
              ))
      ]

  -- The recursive query returns exactly the people from whom a chain of reports, of any length,
  -- leads up to the manager, also where the chains run in a circle.
  pub reporting_tree_ids-Below :
      (k : ℕ) → (member k (reporting_tree_ids manager es) ≡ true) ↔ Below es manager k
  unfolding reporting_tree_ids directs
  reporting_tree_ids-Below k = (
    λ im.
        rounds-AllBelow (length es) directs (λ j h. Below.direct (sym (member-directs j) ∙ h)) k im,
    λ below. Below-member below,
  )
