-- ===== src/Regularization/Counting.antt =====
-- Counts of rows, `count_approved_in_month` of app/repositories/regularization.py, under a write.
use avora_be.Prelude.{ℕ, ◌+◌, ◌≡◌, Bool, none, some, [], ◌∷◌, arith, if◌then◌else◌}
use avora_be.Prelude.Dict.{Dict, lookup, insert}
use avora_be.Regularization.{Regularization, count_rows}

abbrev pub one_if : Bool → ℕ
one_if b = if b then 1 else 0

module _ (p : Regularization → Bool) (k : ℕ) (r : Regularization) where
  -- A row replaced counts in place of the old one.
  pub count_rows-insert_old :
      (d : Dict Regularization) {old : Regularization}
      → lookup k d ≡ some old
      → count_rows p (insert k r d) + one_if (p old) ≡ count_rows p d + one_if (p r)
  count_rows-insert_old [] h = absurd (ground arith)
  count_rows-insert_old ((j, w) ∷ d) {old} h = ground (arith, count_rows-insert_old d {old = old})

  pub count_rows-insert_new :
      (d : Dict Regularization)
      → lookup k d ≡ none
      → count_rows p (insert k r d) ≡ count_rows p d + one_if (p r)
  count_rows-insert_new [] h = ground arith
  count_rows-insert_new ((j, w) ∷ d) h = ground (arith, count_rows-insert_new d)
