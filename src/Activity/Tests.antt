-- ===== src/Activity/Tests.antt =====
-- Two samples of one laptop, and a replay of the first.
use avora_be.Prelude.{ℕ, ◌≡◌, refl, false, Option, none, some, [], ◌∷◌}
use avora_be.Prelude.Service.{Result, ok, err, succeeds}
use avora_be.Activity.{Db, CurrentDevice, ActivityIngest, Sample, ingest, flags_of, new_sample}
use avora_be.Activity.Sequences.{Step, Run, Chain, sequences, never_replayed}

abbrev start : Db
start = record {
  devices = (9, record { last_sequence = 0; last_seen_at = none }) ∷ [];
  samples = [];
  max_clock_skew = 300;
}

abbrev laptop : ℕ → CurrentDevice
laptop seq = record { device_id = 9; employee_id = 1; last_sequence = seq }

abbrev sent : ℕ → ActivityIngest
sent seq = record {
  sequence = seq;
  client_timestamp = 1000;
  idle_seconds = 0;
  active_window = some "editor";
  url = none;
  page_title = none;
  browser = none;
}

abbrev state_of : Result (Option Sample × Db) → Db
state_of (ok (r, db)) = db
state_of (err e) = start

abbrev one : Db
one = state_of (ingest (laptop 0) (sent 1) false 1000 start)

abbrev two : Db
two = state_of (ingest (laptop 1) (sent 5) false 1010 one)

replay_refused : succeeds (ingest (laptop 5) (sent 1) false 1020 two) ≡ false
unfolding ingest
replay_refused = refl

both : Run start two
unfolding ingest flags_of
both =
    Run.next
      (Run.next Run.done (
        Step.ingests (laptop 0) (sent 1) false 1000
          {row = record { last_sequence = 0; last_seen_at = none }}
          {r = some (new_sample (laptop 0) (sent 1) [])} refl refl refl))
      (Step.ingests (laptop 1) (sent 5) false 1010
        {row = record { last_sequence = 1; last_seen_at = some 1000 }}
        {r = some (new_sample (laptop 1) (sent 5) [])} refl refl refl)

never_replayed_example : Chain 0 (sequences 9 two.samples) 5
unfolding ingest flags_of
never_replayed_example =
    never_replayed 9 {row = record { last_sequence = 5; last_seen_at = some 1010 }} refl both refl
