-- ===== src/Activity/Sequences.antt =====
-- Sequences of one device, app/services/activity_service.py.
use mathlib.Core.List.{append-nil}
use avora_be.Prelude.{
  ℕ, ◌≤◌, ◌<◌, ◌≡◌, ◌≢◌, refl, sym, ◌∙◌, subst, Bool, true, false, Option, some, List, [], ◌∷◌,
  ◌++◌, ◌==◌, arith, if◌then◌else◌, inl, inr, ◌⊎◌, Bool-cases,
}
use avora_be.Prelude.Dict.{lookup, insert, lookup-insert_cases}
use avora_be.Prelude.Service.{ok}
use avora_be.Activity.{
  Db, Device, CurrentDevice, ActivityIngest, Sample, ingest, new_sample, flags_of, Flag,
}

-- The sequences stored for one device, in the order of their arrival.
abbrev pub sequences : ℕ → List Sample → List ℕ
sequences k [] = []
sequences k (s ∷ ss) = if s.device_id == k then s.sequence ∷ sequences k ss else sequences k ss

-- Strictly increasing from above one bound, and none above another.
unfoldable pub Chain : ℕ → List ℕ → ℕ → Type 0
Chain low [] top = low ≤ top
Chain low (n ∷ ns) top = (low < n) × Chain n ns top

Chain-append :
    (low : ℕ) (ns : List ℕ) (top n : ℕ) → Chain low ns top → top < n → Chain low (ns ++ (n ∷ [])) n
unfolding Chain
Chain-append low [] top n h lt = (omega arith, omega arith)
Chain-append low (m ∷ ns) top n (a, h) lt = (a, Chain-append m ns top n h lt)

Chain-raise : (low : ℕ) (ns : List ℕ) (top n : ℕ) → Chain low ns top → top < n → Chain low ns n
unfolding Chain
Chain-raise low [] top n h lt = omega arith
Chain-raise low (m ∷ ns) top n (a, h) lt = (a, Chain-raise m ns top n h lt)

sequences-append :
    (k : ℕ) (ss : List Sample) (s : Sample)
    → sequences k (ss ++ (s ∷ [])) ≡ sequences k ss ++ sequences k (s ∷ [])
sequences-append k [] s = refl
sequences-append k (t ∷ ss) s = elim (Bool-cases (t.device_id == k)) [
  | inl e ↦ rw (e, sequences-append k ss s) refl
  | inr e ↦ rw (e, sequences-append k ss s) refl
]

-- An ingest of a device that was authenticated with its row as it stands.
pub data Step (db : Db) : Db → Type 0 where
  ingests :
      (d : CurrentDevice) (p : ActivityIngest) (suppressed : Bool) (now : ℕ) {row : Device}
      {r : Option Sample} {db' : Db}
      → lookup d.device_id db.devices ≡ some row
      → d.last_sequence ≡ row.last_sequence
      → ingest d p suppressed now db ≡ ok (r, db')
      → Step db db'

pub data Run (db : Db) : Db → Type 0 where
  done : Run db db
  next : {db' db'' : Db} → Run db db' → Step db' db'' → Run db db''

abbrev moved : ActivityIngest → ℕ → Device
moved p now = record { last_sequence = p.sequence; last_seen_at = some now }

ingest-moves :
    (d : CurrentDevice) (p : ActivityIngest) (suppressed : Bool) (now : ℕ) (db : Db) {row : Device}
    {r : Option Sample} {db' : Db}
    → lookup d.device_id db.devices ≡ some row
    → ingest d p suppressed now db ≡ ok (r, db')
    → (d.last_sequence < p.sequence)
      × (db'.devices ≡ insert d.device_id (moved p now) db.devices)
      × ((db'.samples ≡ db.samples)
          ⊎ (db'.samples ≡ db.samples ++ (new_sample d p (flags_of db.max_clock_skew p now) ∷ [])))
unfolding ingest
ingest-moves d p suppressed now db {row} {r} {db'} e h = (
  ground arith,
  ground arith,
  elim (Bool-cases suppressed) [ inl on ↦ inl (ground arith) | inr off ↦ inr (ground arith) ],
)

unfoldable pub InOrder : Db → Type 0
InOrder db =
    (k : ℕ) (row : Device)
    → lookup k db.devices ≡ some row
    → Chain 0 (sequences k db.samples) row.last_sequence

-- What one more sample does to the sequences of its own device, and of another.
own_sample :
    (d : CurrentDevice) (p : ActivityIngest) (fs : List Flag) (ss : List Sample)
    → sequences d.device_id (ss ++ (new_sample d p fs ∷ []))
      ≡ sequences d.device_id ss ++ (p.sequence ∷ [])
own_sample d p fs ss =
    let mine : (d.device_id == d.device_id) ≡ true = ground arith in
    sequences-append d.device_id ss (new_sample d p fs) ∙ rw mine refl

other_sample :
    (k : ℕ) (d : CurrentDevice) (p : ActivityIngest) (fs : List Flag) (ss : List Sample)
    → k ≢ d.device_id
    → sequences k (ss ++ (new_sample d p fs ∷ [])) ≡ sequences k ss
other_sample k d p fs ss ne =
    let foreign : (d.device_id == k) ≡ false = ground arith in
    sequences-append k ss (new_sample d p fs) ∙ rw foreign (append-nil (sequences k ss))

step-InOrder : {db db' : Db} → Step db db' → InOrder db → InOrder db'
unfolding InOrder
step-InOrder {db} {db'} (Step.ingests d p suppressed now {row} e fresh h) all k row' at =
    let (newer, devices, samples) = ingest-moves d p suppressed now db e h in
    let grown : row.last_sequence < p.sequence = omega arith in
    elim (lookup-insert_cases k d.device_id (moved p now) db.devices
      (subst (λ t. lookup k t ≡ some row') devices at)) [
        | inl (same, new) ↦
            subst (λ x. Chain 0 (sequences k db'.samples) x.last_sequence) new
              (subst (λ j. Chain 0 (sequences j db'.samples) p.sequence) (sym same)
                (elim samples [
                  | inl still ↦
                      subst (λ ss. Chain 0 (sequences d.device_id ss) p.sequence) (sym still)
                        (Chain-raise 0 _ row.last_sequence p.sequence (all d.device_id row e) grown)
                  | inr more ↦
                      subst (λ ss. Chain 0 (sequences d.device_id ss) p.sequence) (sym more)
                        (subst (λ ns. Chain 0 ns p.sequence) (sym (own_sample d p _ db.samples))
                          (Chain-append 0 _ row.last_sequence p.sequence (all d.device_id row e)
                            grown))
                ]))
        | inr (other, old) ↦ elim samples [
          | inl still ↦
              subst (λ ss. Chain 0 (sequences k ss) row'.last_sequence) (sym still) (all k row' old)
          | inr more ↦
              subst (λ ss. Chain 0 (sequences k ss) row'.last_sequence) (sym more)
                (subst (λ ns. Chain 0 ns row'.last_sequence)
                  (sym (other_sample k d p _ db.samples other)) (all k row' old))
        ]
      ]

Run-InOrder : {db db' : Db} → Run db db' → InOrder db → InOrder db'
Run-InOrder Run.done all = all
Run-InOrder (Run.next run step) all = step-InOrder step (Run-InOrder run all)

-- Whatever was ingested since no sample was stored, call after call: the sequences stored for a
-- device on file are strictly increasing in the order of their arrival (so none is stored twice)
-- and none is above the device's last sequence.
pub never_replayed :
    {db db' : Db} (k : ℕ) {row : Device}
    → db.samples ≡ []
    → Run db db'
    → lookup k db'.devices ≡ some row
    → Chain 0 (sequences k db'.samples) row.last_sequence
unfolding InOrder Chain
never_replayed {db} k {row} no_samples run e =
    Run-InOrder run
      (λ j r _.
        subst (λ ss. Chain 0 (sequences j ss) r.last_sequence) (sym no_samples) (omega arith))
      k row e
