-- ===== src/Idempotency/Tests.antt =====
-- A request that is sent twice.
use avora_be.Prelude.{ℕ, ◌+◌, ◌≡◌, refl, some, []}
use avora_be.Prelude.Service.{Result, ok, Service}
use avora_be.Staff.Sample.{state_of}
use avora_be.Idempotency.{Db, Reply, run, run_new, replay}
use avora_be.Idempotency.Replay.{Step, Run}
use avora_be.Idempotency.Once.{run_once}

-- An operation that counts how often it was run, and answers the count.
abbrev count : Service ℕ ℕ
count n = ok (n + 1, n + 1)

abbrev start : Db ℕ ℕ
start = record { keys = []; world = 0 }

abbrev first : Result (Reply ℕ ℕ × Db ℕ ℕ)
first = run 1 2 (some 3) 44 (λ n. n) count start

-- Another key, and a change by somebody else.
abbrev second : Result (Reply ℕ ℕ × Db ℕ ℕ)
second = run 1 2 (some 4) 44 (λ n. n) count (state_of start first)

abbrev later : Db ℕ ℕ
later = record (state_of start second) { world = 9 }

history : Run (state_of start first) later
unfolding run run_new replay
history =
    Run.next
      (Run.next Run.done (
        Step.runs 1 2 (some 4) 44 (λ n. n) count {reply = Reply.fresh 2}
          {db' = state_of start second} refl))
      (Step.changes 9)

run_once_example : run 1 2 (some 3) 44 (λ n. n) count later ≡ ok (Reply.replayed (some 1), later)
unfolding run run_new replay
run_once_example =
    run_once 1 2 3 44 (λ n. n) count (λ n. n) count 44 start (state_of start first) later {a = 1}
      refl history
