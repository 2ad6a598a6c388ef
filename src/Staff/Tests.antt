-- ===== src/Staff/Tests.antt =====
-- A manager, the report, the report's report, and two people who manage each other.
use avora_be.Prelude.{◌≡◌, ◌↔◌, refl, true, false, none, some, [], ◌∷◌}
use avora_be.Prelude.Dict.{Dict}
use avora_be.Auth.{Role}
use avora_be.Staff.{Employee}
use avora_be.Staff.Scope.{member, reporting_tree_ids, tree_rounds, new_reports, can_read, in_scope}
use avora_be.Staff.Tree.{Below, reporting_tree_ids-Below}
use avora_be.Staff.Sample.{staff, user}

abbrev company : Dict Employee
company =
    (3, staff Role.intern (some 2))
    ∷ (2, staff Role.executive (some 1))
    ∷ (1, staff Role.manager none)
    ∷ (4, staff Role.executive (some 5))
    ∷ (5, staff Role.executive (some 4))
    ∷ []

tree_of_1 : reporting_tree_ids 1 company ≡ 2 ∷ 3 ∷ []
unfolding reporting_tree_ids tree_rounds new_reports
tree_of_1 = refl

circle : reporting_tree_ids 4 company ≡ 5 ∷ 4 ∷ []
unfolding reporting_tree_ids tree_rounds new_reports
circle = refl

not_upwards : can_read (user 3 Role.intern) company 1 ≡ false
unfolding can_read in_scope reporting_tree_ids tree_rounds new_reports
not_upwards = refl

reporting_tree_ids-Below_example :
    (member 3 (reporting_tree_ids 1 company) ≡ true) ↔ Below company 1 3
reporting_tree_ids-Below_example = reporting_tree_ids-Below company 1 3
