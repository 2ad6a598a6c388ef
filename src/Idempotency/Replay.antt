-- ===== src/Idempotency/Replay.antt =====
-- A key is run once: histories of app/services/idempotency.py.
use avora_be.Prelude.{
  ℕ, ◌≡◌, true, Option, none, some, List, [], ◌∷◌, ◌==◌, arith, refl, ap, sym, ◌∙◌, if◌then◌else◌,
  not,
}
use avora_be.Prelude.Service.{
  AppError, Result, ok, err, Service, bind_ok, ok_inj, raise_if, raise_if_ok,
}
use avora_be.Idempotency.{
  IdempotencyKey, Db, Reply, holds, get, put, claimed, complete, on_world, run_new, replay,
  by_record, run, is_completed,
}

module _ {R : Type 0} where
  pub get-put :
      (who where_ key : ℕ) (r : IdempotencyKey R) (rs : List (IdempotencyKey R))
      → get who where_ key (put r rs)
        ≡ (if holds who where_ key r then some r else get who where_ key rs)
  get-put who where_ key r [] = refl
  get-put who where_ key r (q ∷ rs) = ground (arith, get-put who where_ key r rs)

  -- Two ways to name one key.
  pub get_same :
      (who where_ key : ℕ) (r : IdempotencyKey R) (rs : List (IdempotencyKey R))
      → holds who where_ key r ≡ true
      → get who where_ key rs ≡ get r.principal_id r.scope r.idempotency_key rs
  get_same who where_ key r [] h = refl
  get_same who where_ key r (q ∷ rs) h = ground (arith, h, get_same who where_ key r rs h)

  pub put_twice :
      (who where_ key : ℕ) (r : IdempotencyKey R) (answer : R) (rs : List (IdempotencyKey R))
      → get who where_ key (put (complete r answer) (put r rs))
        ≡ (if holds who where_ key r then some (complete r answer) else get who where_ key rs)
  put_twice who where_ key r answer rs =
      ground
        (arith, get-put who where_ key (complete r answer) (put r rs), get-put who where_ key r rs)

module _ {R W : Type 0} where
  pub on_world_keys :
      {A : Type 0} (operation : Service W A) (db : Db R W) {a : A} {db' : Db R W}
      → on_world operation db ≡ ok (a, db')
      → db'.keys ≡ db.keys
  on_world_keys {A} operation db {a} {db'} h = go (operation db.world) h
    where
      go :
          (x : Result (A × W))
          → ◌≡◌ {A = Result (A × Db R W)}
              (elim x [ ok (b, w) ↦ ok (b, record db { world = w }) | err e ↦ err e ])
              (ok (a, db'))
          → db'.keys ≡ db.keys
      go (ok (b, w)) h = ap (λ d. d.keys) (sym (ok_inj h).1)
      go (err e) h = absurd (ground (arith, h))

  pub run_new_writes :
      {A : Type 0} (r : IdempotencyKey R) (encode : A → R) (operation : Service W A) (db : Db R W)
      {reply : Reply R A} {db' : Db R W}
      → run_new r encode operation db ≡ ok (reply, db')
      → (a : A) × (reply ≡ Reply.fresh a) × (db'.keys ≡ put (complete r (encode a)) (put r db.keys))
  unfolding run_new
  run_new_writes r encode operation db h =
      let (a, db1, f, h1) = bind_ok (on_world operation) _ (record db { keys = put r db.keys }) h in
      let (same, there) = ok_inj h1 in
      (
        a,
        sym same,
        ap (λ d. d.keys) (sym there)
            ∙ ap (put (complete r (encode a))) (on_world_keys operation _ f),
      )

  pub replay_ok :
      {A : Type 0} (r : IdempotencyKey R) (hash : ℕ) (db : Db R W) {reply : Reply R A}
      {db' : Db R W}
      → replay r hash db ≡ ok (reply, db')
      → (reply ≡ Reply.replayed r.response) × (db ≡ db')
  unfolding replay
  replay_ok r hash db h =
      let (_, db1, f, h1) =
        bind_ok (raise_if (not (r.request_hash == hash)) AppError.validation_error) _ db h in
      let (_, db2, g, h2) =
        bind_ok (raise_if (not (is_completed r.status)) AppError.conflict_error) _ db1 h1 in
      let (same, there) = ok_inj h2 in
      (
        sym same,
        (raise_if_ok (not (r.request_hash == hash)) AppError.validation_error db f).1
            ∙ (raise_if_ok (not (is_completed r.status)) AppError.conflict_error db1 g).1
            ∙ there,
      )

-- Calls of any callers and operations that succeed, and whatever else the program writes.
pub data Step {R W : Type 0} (db : Db R W) : Db R W → Type 1 where
  runs :
      {A : Type 0} (who where_ : ℕ) (key : Option ℕ) (hash : ℕ) (encode : A → R)
      (operation : Service W A) {reply : Reply R A} {db' : Db R W}
      → run who where_ key hash encode operation db ≡ ok (reply, db')
      → Step db db'
  changes : (w : W) → Step db (record db { world = w })

pub data Run {R W : Type 0} (db : Db R W) : Db R W → Type 1 where
  done : Run db db
  next : {db' db'' : Db R W} → Run db db' → Step db' db'' → Run db db''

module _ {R W : Type 0} (who where_ key : ℕ) (old : IdempotencyKey R) where
  by_record_keeps :
      {A : Type 0} (o : Option (IdempotencyKey R)) (r : IdempotencyKey R) (encode : A → R)
      (operation : Service W A) (db : Db R W) {reply : Reply R A} {db' : Db R W}
      → get r.principal_id r.scope r.idempotency_key db.keys ≡ o
      → by_record o r encode operation db ≡ ok (reply, db')
      → get who where_ key db.keys ≡ some old
      → get who where_ key db'.keys ≡ some old
  by_record_keeps (some q) r encode operation db e h found =
      ap (λ d. get who where_ key d.keys) (sym (replay_ok q r.request_hash db h).1) ∙ found
  by_record_keeps none r encode operation db e h found =
      let (a, _, wrote) = run_new_writes r encode operation db h in
      ap (get who where_ key) wrote
      ∙ put_twice who where_ key r (encode a) db.keys
      ∙ ground (arith, e, found, get_same who where_ key r db.keys)

  Step-keeps :
      {db db' : Db R W}
      → Step db db'
      → get who where_ key db.keys ≡ some old
      → get who where_ key db'.keys ≡ some old
  unfolding run
  Step-keeps {db} (Step.runs by place (some k) hash encode operation h) found =
      by_record_keeps (get by place k db.keys) (claimed by place k hash) encode operation db refl h
        found
  Step-keeps {db} (Step.runs by place none hash encode operation h) found =
      let (a, db1, f, h1) = bind_ok (on_world operation) _ db h in
      ap (λ d. get who where_ key d.keys) (sym (ok_inj h1).1)
      ∙ ap (get who where_ key) (on_world_keys operation db f)
      ∙ found
  Step-keeps (Step.changes w) found = found

  pub Run-keeps :
      {db db' : Db R W}
      → Run db db'
      → get who where_ key db.keys ≡ some old
      → get who where_ key db'.keys ≡ some old
  Run-keeps Run.done found = found
  Run-keeps (Run.next run step) found = Step-keeps step (Run-keeps run found)
