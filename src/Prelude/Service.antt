-- ===== src/Prelude/Service.antt =====
-- A service method: state in, and the answer with the new state, or an exception. A raised
-- exception rolls the session back (app/db/session.py, `get_session`), so it carries no state.
use native.Mathlib.Omega.{arith}
use mathlib.Core.Path.{◌≡◌, refl}
use mathlib.Core.Logic.{◌⊎◌, inl, inr}
use mathlib.Core.Bool.{Bool, true, false}
use mathlib.Core.Option.{Option, none, some}

-- The exceptions that the services raise, app/core/exceptions.py.
pub data AppError : Type 0 where
  authorization_error conflict_error not_found_error replay_error validation_error : AppError

pub data Result {ℓ} (A : Type ℓ) : Type ℓ where
  ok : A → Result A
  err : AppError → Result A

-- The call returns a row, and raises nothing.
abbrev pub succeeds : {A : Type 0} → Result A → Bool
succeeds (ok a) = true
succeeds (err e) = false

pub Result-cases :
    {A : Type 0} (r : Result A) → ((a : A) × (r ≡ ok a)) ⊎ ((e : AppError) × (r ≡ err e))
Result-cases (ok a) = inl (a, refl)
Result-cases (err e) = inr (e, refl)

abbrev pub Service : Type 0 → Type 0 → Type 0
Service S A = S → Result (A × S)

module _ {S : Type 0} where
  infixl 5 ◌>>=◌ ◌>>◌
  abbrev pub ◌>>=◌ : {A B : Type 0} → Service S A → (A → Service S B) → Service S B
  ◌>>=◌ m f s = elim (m s) [ ok (a, s') ↦ f a s' | err e ↦ err e ]

  abbrev pub ◌>>◌ : {A B : Type 0} → Service S A → Service S B → Service S B
  m >> k = m >>= λ _. k

  abbrev pub return : {A : Type 0} → A → Service S A
  return a s = ok (a, s)

  -- `if c: raise e`
  abbrev pub raise_if : Bool → AppError → Service S (Unit {0})
  raise_if true e s = err e
  raise_if false e s = ok (tt, s)

  -- `if x is None: raise e`
  abbrev pub or_raise : {A : Type 0} → Option A → AppError → Service S A
  or_raise none e s = err e
  or_raise (some a) e s = ok (a, s)

  abbrev pub gets : {A : Type 0} → (S → A) → Service S A
  gets f s = ok (f s, s)

  abbrev pub modify : (S → S) → Service S (Unit {0})
  modify f s = ok (tt, f s)

  -- A sequence that succeeds: its first part did, and its second on what that left.
  pub bind_ok :
      {A B : Type 0} (m : Service S A) (f : A → Service S B) (s : S) {r : B × S}
      → (m >>= f) s ≡ ok r
      → (a : A) × (s' : S) × (m s ≡ ok (a, s')) × (f a s' ≡ ok r)
  bind_ok {A} {B} m f s {r} h = go (m s) refl h
    where
      go :
          (x : Result (A × S))
          → m s ≡ x
          → ◌≡◌ {A = Result (B × S)} (elim x [ ok (a, s') ↦ f a s' | err e ↦ err e ]) (ok r)
          → (a : A) × (s' : S) × (m s ≡ ok (a, s')) × (f a s' ≡ ok r)
      go (ok (a, s')) e h = (a, s', e, h)
      go (err x) e h = absurd (ground (arith, h))

  pub raise_if_ok :
      (b : Bool) (e : AppError) (s : S) {u : Unit {0}} {s' : S}
      → raise_if b e s ≡ ok (u, s')
      → (b ≡ false) × (s ≡ s')
  raise_if_ok true e s h = absurd (ground (arith, h))
  raise_if_ok false e s h = (refl, cc)

  pub or_raise_ok :
      {A : Type 0} (o : Option A) (e : AppError) (s : S) {a : A} {s' : S}
      → or_raise o e s ≡ ok (a, s')
      → (o ≡ some a) × (s ≡ s')
  or_raise_ok none e s h = absurd (ground (arith, h))
  or_raise_ok (some b) e s h = (cc, cc)

  pub ok_inj :
      {A : Type 0} {a b : A} {s t : S}
      → ◌≡◌ {A = Result (A × S)} (ok (a, s)) (ok (b, t))
      → (a ≡ b) × (s ≡ t)
  ok_inj h = (cc, cc)
