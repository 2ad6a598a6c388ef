-- ===== src/Probation/Items.antt =====
-- What Avora settles on a checklist, `mark_done_by_system` of
-- app/repositories/probation_checklist.py, row by row.
use avora_be.Prelude.{
  ℕ, ◌≡◌, ◌∙◌, Option, none, some, [], ◌∷◌, arith, ◌==◌, if◌then◌else◌, ap, refl, ◌≢◌, sym, subst,
}
use avora_be.Prelude.Dict.{Dict, lookup, insert, lookup-insert}
use avora_be.Probation.{Item, StepStatus, Note, SystemNote, mark_done_by_system, stands, system_row}

-- The last note for a step.
abbrev pub note_for : ℕ → Dict SystemNote → Option SystemNote
note_for nr [] = none
note_for nr ((j, n) ∷ notes) = elim (note_for nr notes) [
  | some m ↦ some m
  | none ↦ if nr == j then some n else none
]

-- A row with the note that is for it, if any.
abbrev pub noted : Option SystemNote → ℕ → Option Item → Option Item
noted none now old = old
noted (some n) now old = if stands old then old else some (system_row n now)

noted_once :
    (nr j : ℕ) (n : SystemNote) (now : ℕ) (rows : Dict Item)
    → lookup nr (if stands (lookup j rows) then rows else insert j (system_row n now) rows)
      ≡ noted (if nr == j then some n else none) now (lookup nr rows)
noted_once nr j n now rows =
    ground
      (arith, lookup-insert nr j (system_row n now) rows, λ (e : nr ≡ j). ap (λ k. lookup k rows) e)

noted_twice :
    (nr j : ℕ) (n : SystemNote) (now : ℕ) (notes : Dict SystemNote) (old : Option Item)
    → noted (note_for nr notes) now (noted (if nr == j then some n else none) now old)
      ≡ noted (note_for nr ((j, n) ∷ notes)) now old
noted_twice nr j n now notes old = ground arith

-- A row after the notes is the row before with its note.
pub lookup-mark_done_by_system :
    (nr : ℕ) (notes : Dict SystemNote) (now : ℕ) (rows : Dict Item)
    → lookup nr (mark_done_by_system notes now rows)
      ≡ noted (note_for nr notes) now (lookup nr rows)
unfolding mark_done_by_system
lookup-mark_done_by_system nr [] now rows = refl
lookup-mark_done_by_system nr ((j, n) ∷ notes) now rows =
    lookup-mark_done_by_system nr notes now
      (if stands (lookup j rows) then rows else insert j (system_row n now) rows)
    ∙ ap (noted (note_for nr notes) now) (noted_once nr j n now rows)
    ∙ noted_twice nr j n now notes (lookup nr rows)

-- The step that Avora writes.
abbrev by_avora : SystemNote → ℕ → Option Item
by_avora n now = some (record {
  status = StepStatus.finished;
  note = Note.by_system n;
  actor_id = none;
  acted_at = some now;
})

-- What becomes of a step, from the note that there is for it and its row before to its row after.
pub data Settles (now : ℕ) : Option SystemNote → Option Item → Option Item → Type 0 where
  unnoted : {o : Option Item} → Settles now none o o
  new : {n : SystemNote} → Settles now (some n) none (by_avora n now)
  unsettled :
      {n : SystemNote} {row : Item}
      → row.status ≡ StepStatus.pending
      → Settles now (some n) (some row) (by_avora n now)
  renewed :
      {n m : SystemNote} {row : Item}
      → row.actor_id ≡ none
      → row.note ≡ Note.by_system m
      → Settles now (some n) (some row) (by_avora n now)
  acted :
      {n : SystemNote} {row : Item} {who : ℕ}
      → row.status ≢ StepStatus.pending
      → row.actor_id ≡ some who
      → Settles now (some n) (some row) (some row)
  written :
      {n : SystemNote} {row : Item}
      → row.status ≢ StepStatus.pending
      → ((m : SystemNote) → row.note ≢ Note.by_system m)
      → Settles now (some n) (some row) (some row)

noted-Settles :
    (now : ℕ) (o : Option SystemNote) (old : Option Item) → Settles now o old (noted o now old)
noted-Settles now none old = Settles.unnoted
noted-Settles now (some n) none = Settles.new
noted-Settles now (some n) (some row) = row_settles row.status row.note row.actor_id row.acted_at
  where
    row_settles :
        (st : StepStatus) (m : Note) (a t : Option ℕ)
        → let r : Item = record { status = st; note = m; actor_id = a; acted_at = t } in
          Settles now (some n) (some r) (noted (some n) now (some r))
    row_settles StepStatus.pending m a t = Settles.unsettled refl
    row_settles StepStatus.finished m (some who) t = Settles.acted (ground arith) refl
    row_settles StepStatus.skipped m (some who) t = Settles.acted (ground arith) refl
    row_settles StepStatus.finished (Note.by_system k) none t = Settles.renewed refl refl
    row_settles StepStatus.skipped (Note.by_system k) none t = Settles.renewed refl refl
    row_settles StepStatus.finished Note.no_note none t =
        Settles.written (ground arith) (λ k. ground arith)
    row_settles StepStatus.skipped Note.no_note none t =
        Settles.written (ground arith) (λ k. ground arith)
    row_settles StepStatus.finished Note.acknowledged none t =
        Settles.written (ground arith) (λ k. ground arith)
    row_settles StepStatus.skipped Note.acknowledged none t =
        Settles.written (ground arith) (λ k. ground arith)
    row_settles StepStatus.finished (Note.typed x) none t =
        Settles.written (ground arith) (λ k. ground arith)
    row_settles StepStatus.skipped (Note.typed x) none t =
        Settles.written (ground arith) (λ k. ground arith)

-- The keys of a mapping are different.
abbrev pub OneEach : Dict SystemNote → Type 0
OneEach [] = Unit
OneEach ((j, n) ∷ notes) = (lookup j notes ≡ none) × OneEach notes

note_for-lookup :
    (nr : ℕ) (notes : Dict SystemNote) → OneEach notes → note_for nr notes ≡ lookup nr notes
note_for-lookup nr [] each = refl
note_for-lookup nr ((j, n) ∷ notes) (one, each) =
    ground (arith, note_for-lookup nr notes each, λ (e : nr ≡ j). ap (λ k. lookup k notes) e, one)

-- Avora's notes on a checklist. A step without a note keeps its row. A step with a note gets a row
-- that says it is finished, without an actor, with that note and the current time, if it has no
-- row yet, is pending, or was settled by Avora before. A step with a note that is not pending keeps
-- its row if it has an actor or no note of Avora's.
pub mark_done_by_system_lem :
    (nr : ℕ) (notes : Dict SystemNote) (now : ℕ) (rows : Dict Item)
    → OneEach notes
    → Settles now
        (lookup nr notes)
        (lookup nr rows)
        (lookup nr (mark_done_by_system notes now rows))
mark_done_by_system_lem nr notes now rows each =
    subst (λ o. Settles now o (lookup nr rows) (lookup nr (mark_done_by_system notes now rows)))
      (note_for-lookup nr notes each)
      (subst (Settles now (note_for nr notes) (lookup nr rows))
        (sym (lookup-mark_done_by_system nr notes now rows))
        (noted-Settles now (note_for nr notes) (lookup nr rows)))
