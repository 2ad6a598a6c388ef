-- ===== src/Regularization/Review.antt =====
-- The test of the review list, `decidable_ids` of app/services/regularization_service.py, against
-- the review itself.
use Prim.Native.String.{String}
use avora_be.Prelude.{ℕ, ◌≡◌, true, false, ◌&&◌, Option, some, arith, ltb}
use avora_be.Prelude.Dict.{lookup}
use avora_be.Prelude.Service.{succeeds}
use avora_be.Auth.{CurrentUser}
use avora_be.Staff.Scope.{can_read}
use avora_be.Regularization.{
  Db, Regularization, decidable, review, may_decide, spend_credit, spec, count_approved_in_month,
  month_of,
}
use avora_be.Regularization.Writes.{granted}

module _ (caller : CurrentUser) (k : ℕ) (db : Db) (reg : Regularization)
    (at : lookup k db.regs ≡ some reg) (seen : can_read caller db.employees reg.employee_id ≡ true)
    (why : Option String) where
  -- For a request on file whose owner the caller can read: the test of the review list is exactly
  -- whether a rejection, taken now, goes through, and together with a credit that is left of those
  -- the policy grants in the month, exactly whether an approval does.
  pub decidable-review :
      (decidable caller db reg
        ≡ succeeds (review caller k (record { approve = false; review_note = why }) db))
      × ((decidable caller db reg
            && ltb
                (count_approved_in_month reg.employee_id (month_of reg.day) db.regs)
                (granted db))
          ≡ succeeds (review caller k (record { approve = true; review_note = why }) db))
  unfolding review may_decide spend_credit spec
  decidable-review = (ground arith, ground arith)
