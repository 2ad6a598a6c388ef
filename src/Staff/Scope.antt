-- ===== src/Staff/Scope.antt =====
-- Who may read whom: `reporting_tree_ids`, `_scope_clause` and `can_read` of
-- app/repositories/employee.py, and the lists of people that services address.
use avora_be.Prelude.{
  ℕ, zero, suc, Bool, true, false, not, ◌&&◌, ◌||◌, Option, none, some, List, [], ◌∷◌, ◌++◌, any,
  length, ◌==◌, if◌then◌else◌, is_some, opt_eq,
}
use avora_be.Prelude.Dict.{Dict, lookup}
use avora_be.Auth.{CurrentUser, Role, is_admin_role, normalize_role}
use avora_be.Staff.{Employee, ids_where, same_department}

abbrev pub member : ℕ → List ℕ → Bool
member k = any (λ x. x == k)

-- The identifiers of the rows that a query keeps, by identifier and columns.
abbrev pub keys_where : (ℕ → Employee → Bool) → Dict Employee → List ℕ
keys_where p [] = []
keys_where p ((k, e) ∷ d) = if p k e then k ∷ keys_where p d else keys_where p d

abbrev pub manager_in : List ℕ → Option ℕ → Bool
manager_in tree none = false
manager_in tree (some m) = member m tree

-- What one round of the recursive query adds: `UNION` drops the rows that are there already.
unfoldable pub new_reports : Dict Employee → List ℕ → List ℕ
new_reports es tree = keys_where (λ k e. manager_in tree e.manager_id && not (member k tree)) es

unfoldable pub tree_rounds : ℕ → Dict Employee → List ℕ → List ℕ
tree_rounds zero es tree = tree
tree_rounds (suc n) es tree = tree_rounds n es (tree ++ new_reports es tree)

-- `reporting_tree_ids`: the direct reports, then as many rounds as there are rows at most.
unfoldable pub reporting_tree_ids : ℕ → Dict Employee → List ℕ
unfolding tree_rounds
reporting_tree_ids manager es =
    tree_rounds (length es) es (ids_where (λ e. opt_eq e.manager_id manager) es)

-- `_scope_clause`, for one row.
unfoldable pub in_scope : CurrentUser → Dict Employee → ℕ → Bool
in_scope caller es target = elim caller.role [
  | Role.admin ↦ true
  | Role.hr ↦ true
  | Role.viewer ↦ target == caller.employee_id
  | Role.senior_manager ↦ same_department (lookup target es) (lookup caller.employee_id es)
  | _ ↦ member target (reporting_tree_ids caller.employee_id es) || target == caller.employee_id
]

unfoldable pub can_read : CurrentUser → Dict Employee → ℕ → Bool
unfolding in_scope
can_read caller es target = is_some (lookup target es) && in_scope caller es target

-- `list_admins`: IT admins are admins.
abbrev pub list_admins : Dict Employee → List ℕ
list_admins = ids_where (λ e. is_admin_role (normalize_role e.role) && e.is_active)
