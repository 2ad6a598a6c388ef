-- ===== src/Idempotency.antt =====
-- One run per key: app/services/idempotency.py with app/repositories/idempotency.py and
-- app/models/idempotency_key.py. The operation, the encoding of its answer and the fingerprint of a
-- request are arguments; callers, scopes, keys and fingerprints are numbers. A twin that is at work
-- at the same time waits on the unique index, so calls stand one after the other here.
pub mod Replay
mod Once
mod Tests
use avora_be.Prelude.{
  ℕ, Bool, true, false, not, ◌&&◌, Option, none, some, List, [], ◌∷◌, ◌==◌, if◌then◌else◌,
}
use avora_be.Prelude.Service.{
  AppError, Result, ok, err, Service, ◌>>=◌, ◌>>◌, return, raise_if, gets, modify,
}

pub data KeyStatus : Type 0 where
  in_progress completed : KeyStatus

pub record IdempotencyKey (R : Type 0) : Type 0 where
  pub principal_id : ℕ
  pub scope : ℕ
  pub idempotency_key : ℕ
  pub request_hash : ℕ
  pub status : KeyStatus
  pub response : Option R

abbrev pub is_completed : KeyStatus → Bool
is_completed KeyStatus.in_progress = false
is_completed KeyStatus.completed = true

-- The database: the table of keys, and everything that operations read and write.
pub record Db (R W : Type 0) : Type 0 where
  pub keys : List (IdempotencyKey R)
  pub world : W

-- What a call answers: the operation's own answer, or a stored one.
pub data Reply (R A : Type 0) : Type 0 where
  fresh : A → Reply R A
  replayed : Option R → Reply R A

module _ {R : Type 0} where
  abbrev pub holds : ℕ → ℕ → ℕ → IdempotencyKey R → Bool
  holds who where_ key r = r.principal_id == who && (r.scope == where_ && r.idempotency_key == key)

  -- `get`
  abbrev pub get : ℕ → ℕ → ℕ → List (IdempotencyKey R) → Option (IdempotencyKey R)
  get who where_ key [] = none
  get who where_ key (r ∷ rs) = if holds who where_ key r then some r else get who where_ key rs

  -- The record of a key written, a new one at the end.
  abbrev pub put : IdempotencyKey R → List (IdempotencyKey R) → List (IdempotencyKey R)
  put r [] = r ∷ []
  put r (q ∷ rs) = if holds r.principal_id r.scope r.idempotency_key q then r ∷ rs else q ∷ put r rs

  abbrev pub claimed : ℕ → ℕ → ℕ → ℕ → IdempotencyKey R
  claimed who where_ key hash = record {
    principal_id = who;
    scope = where_;
    idempotency_key = key;
    request_hash = hash;
    status = KeyStatus.in_progress;
    response = none;
  }

  -- `complete`
  abbrev pub complete : IdempotencyKey R → R → IdempotencyKey R
  complete r answer = record r { status = KeyStatus.completed; response = some answer }

  abbrev pub put_key : {W : Type 0} → IdempotencyKey R → Service (Db R W) (Unit {0})
  put_key r = modify λ db. record db { keys = put r db.keys }

module _ {R W A : Type 0} where
  -- An operation of the program, within the call's transaction.
  abbrev pub on_world : Service W A → Service (Db R W) A
  on_world operation db = elim (operation db.world) [
    | ok (a, w) ↦ ok (a, record db { world = w })
    | err e ↦ err e
  ]

  -- The key is new to the caller: the operation is run, and its answer kept.
  unfoldable pub run_new : IdempotencyKey R → (A → R) → Service W A → Service (Db R W) (Reply R A)
  run_new r encode operation = do
    put_key r
    a ← on_world operation
    put_key (complete r (encode a))
    return (Reply.fresh a)

  -- The key is on file.
  unfoldable pub replay : IdempotencyKey R → ℕ → Service (Db R W) (Reply R A)
  replay r hash = do
    raise_if (not (r.request_hash == hash)) AppError.validation_error
    raise_if (not (is_completed r.status)) AppError.conflict_error
    return (Reply.replayed r.response)

  abbrev pub by_record :
      Option (IdempotencyKey R)
      → IdempotencyKey R
      → (A → R)
      → Service W A
      → Service (Db R W) (Reply R A)
  by_record none r encode operation = run_new r encode operation
  by_record (some old) r encode operation = replay old r.request_hash

  -- `run`
  unfoldable pub run : ℕ → ℕ → Option ℕ → ℕ → (A → R) → Service W A → Service (Db R W) (Reply R A)
  run who where_ none hash encode operation = do a ← on_world operation; return (Reply.fresh a)
  run who where_ (some key) hash encode operation = do
    existing ← gets (λ db. get who where_ key db.keys)
    by_record existing (claimed who where_ key hash) encode operation
