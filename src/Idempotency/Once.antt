-- ===== src/Idempotency/Once.antt =====
-- The promise of app/services/idempotency.py: a key is run once.
use avora_be.Prelude.{ℕ, ◌≡◌, Option, none, some, ◌==◌, arith, ap, ◌∙◌, if◌then◌else◌}
use avora_be.Prelude.Service.{AppError, Result, ok, err, Service}
use avora_be.Idempotency.{IdempotencyKey, Db, Reply, get, claimed, complete, replay, by_record, run}
use avora_be.Idempotency.Replay.{put_twice, run_new_writes, replay_ok, Run, Run-keeps}

module _ {R W : Type 0} (who where_ key hash : ℕ) where
  answered_by :
      {A : Type 0} (encode : A → R) (operation : Service W A) (db : Db R W) {a : A} {db' : Db R W}
      (o : Option (IdempotencyKey R))
      → by_record o (claimed who where_ key hash) encode operation db ≡ ok (Reply.fresh a, db')
      → get who where_ key db'.keys ≡ some (complete (claimed who where_ key hash) (encode a))
  answered_by encode operation db (some q) h = absurd (ground (arith, (replay_ok q hash db h).0))
  answered_by encode operation db {a} none h =
      let r = claimed who where_ key hash in
      let (b, same, wrote) = run_new_writes r encode operation db h in
      let is : a ≡ b = cc in
      ap (get who where_ key) wrote
      ∙ put_twice who where_ key r (encode b) db.keys
      ∙ ground (arith, is)

  replay_answer :
      {A : Type 0} (answer : R) (again : ℕ) (db : Db R W)
      → ◌≡◌ {A = Result (Reply R A × Db R W)}
          (replay (complete (claimed who where_ key hash) answer) again db)
          (if hash == again
            then ok (Reply.replayed (some answer), db)
            else err AppError.validation_error)
  unfolding replay
  replay_answer answer again db = ground arith

  -- A call under a key that ran its operation and succeeded is never run again: after whatever
  -- other calls and changes, a call by the same caller for the same scope and key gets the answer
  -- that was stored, encoded, and leaves the state as it is, whatever operation it brings; with a
  -- request of another fingerprint it is refused.
  pub run_once :
      {A B : Type 0} (encode : A → R) (operation : Service W A) (encode' : B → R)
      (operation' : Service W B) (again : ℕ) (db db1 db2 : Db R W) {a : A}
      → run who where_ (some key) hash encode operation db ≡ ok (Reply.fresh a, db1)
      → Run db1 db2
      → run who where_ (some key) again encode' operation' db2 ≡ (
          if hash == again
          then ok (Reply.replayed (some (encode a)), db2)
          else err AppError.validation_error)
  unfolding run
  run_once encode operation encode' operation' again db db1 db2 {a} h calls =
      let first = answered_by encode operation db (get who where_ key db.keys) h in
      let kept =
        Run-keeps who where_ key (complete (claimed who where_ key hash) (encode a)) calls first in
      ap (λ o. by_record o (claimed who where_ key again) encode' operation' db2) kept
      ∙ replay_answer (encode a) again db2
