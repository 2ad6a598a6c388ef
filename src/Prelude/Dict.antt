-- ===== src/Prelude/Dict.antt =====
-- A table keyed by numbers, as an association list: a database table by primary key, or a dict in
-- insertion order.
use avora_be.Prelude.{
  Bool, false, ◌||◌, ℕ, ◌≡◌, ◌≢◌, ◌⊎◌, Option, none, some, List, [], ◌∷◌, arith, ◌==◌,
  if◌then◌else◌,
}

abbrev pub Dict : Type 0 → Type 0
Dict V = List (ℕ × V)

module _ {V : Type 0} where
  abbrev pub lookup : ℕ → Dict V → Option V
  lookup k [] = none
  lookup k ((j, v) ∷ d) = if k == j then some v else lookup k d

  -- Writes the row of a key, a new one at the end.
  abbrev pub insert : ℕ → V → Dict V → Dict V
  insert k v [] = (k, v) ∷ []
  insert k v ((j, w) ∷ d) = if k == j then (j, v) ∷ d else (j, w) ∷ insert k v d

  pub lookup-insert :
      (j k : ℕ) (v : V) (d : Dict V)
      → lookup j (insert k v d) ≡ (if k == j then some v else lookup j d)
  lookup-insert j k v [] = ground arith
  lookup-insert j k v ((i, w) ∷ d) = ground (arith, lookup-insert j k v d)

  -- A row found after a write is the row written, or one that stood there.
  pub lookup-insert_cases :
      (j k : ℕ) (v : V) (d : Dict V) {u : V}
      → lookup j (insert k v d) ≡ some u
      → ((j ≡ k) × (v ≡ u)) ⊎ ((j ≢ k) × (lookup j d ≡ some u))
  lookup-insert_cases j k v d h = ground (arith, lookup-insert j k v d)

  pub lookup-insert_same : (k : ℕ) (v : V) (d : Dict V) → lookup k (insert k v d) ≡ some v
  lookup-insert_same k v d = ground (arith, lookup-insert k k v d)

  pub lookup-insert_other :
      {j k : ℕ} (v : V) (d : Dict V) → j ≢ k → lookup j (insert k v d) ≡ lookup j d
  lookup-insert_other {j} {k} v d h = ground (arith, lookup-insert j k v d)

  -- Some row passes a test of its key and value.
  abbrev pub any_rows : (ℕ → V → Bool) → Dict V → Bool
  any_rows p [] = false
  any_rows p ((k, v) ∷ d) = p k v || any_rows p d

  pub any_rows-lookup :
      (p : ℕ → V → Bool) (k : ℕ) (d : Dict V) {v : V}
      → any_rows p d ≡ false
      → lookup k d ≡ some v
      → p k v ≡ false
  any_rows-lookup p k [] h e = absurd (ground arith)
  any_rows-lookup p k ((j, w) ∷ d) {v} h e = ground (arith, any_rows-lookup p k d {v = v})
