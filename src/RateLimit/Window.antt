-- ===== src/RateLimit/Window.antt =====
-- How many requests of one key the limiter of app/core/ratelimit.py lets through.
use avora_be.Prelude.{
  ℕ, suc, ◌+◌, ◌-◌, ◌*◌, ◌≤◌, ◌<◌, ◌≡◌, refl, max, List, [], ◌∷◌, leb, if◌then◌else◌, arith,
}
use avora_be.Prelude.Dict.{insert, lookup-insert_same}
use avora_be.RateLimit.{Limiter, allow, bucket_of}

-- The instants at which one key asked, and how many of the requests were let through.
unfoldable pub allowed : ℕ → List ℕ → Limiter → ℕ
allowed key [] l = 0
allowed key (now ∷ rest) l =
    let (answer, l') = allow now key l in
    if answer then suc (allowed key rest l') else allowed key rest l'

-- Instants that never go back, from a given one on.
unfoldable pub Later : ℕ → List ℕ → Type 0
Later t [] = Unit {0}
Later t (now ∷ rest) = (t ≤ now) × Later now rest

-- All instants lie before a bound.
unfoldable pub Before : ℕ → List ℕ → Type 0
Before bound [] = Unit {0}
Before bound (now ∷ rest) = (now < bound) × Before bound rest

-- The limiter with one bucket written.
abbrev put : ℕ → ℕ × ℕ → Limiter → Limiter
put key b l = record l { buckets = insert key b l.buckets }

bucket_of-put : (key : ℕ) (b : ℕ × ℕ) (l : Limiter) → bucket_of key (put key b l) ≡ b
bucket_of-put key b l = rw (lookup-insert_same key b l.buckets, bucket_of) refl

-- The three branches of a call, as what they count.
allowed-cons :
    (key now : ℕ) (rest : List ℕ) (l : Limiter)
    → allowed key (now ∷ rest) l ≡ (
        if leb l.window (now - (bucket_of key l).0)
        then suc (allowed key rest (put key (now, 1) l))
        else if leb l.max_requests (bucket_of key l).1
        then allowed key rest (put key (bucket_of key l) l)
        else suc (allowed key rest (put key ((bucket_of key l).0, (bucket_of key l).1 + 1) l)))
unfolding allowed allow
allowed-cons key now rest l = ground arith

allowed-nil : (key : ℕ) (l : Limiter) → allowed key [] l ≡ 0
unfolding allowed
allowed-nil key l = refl

Before-mono : {a b : ℕ} (times : List ℕ) → a ≤ b → Before a times → Before b times
unfolding Before
Before-mono [] h all = tt
Before-mono (now ∷ rest) h (lt, all) = (omega arith, Before-mono rest h all)

Later-mono : {a b : ℕ} (times : List ℕ) → a ≤ b → Later b times → Later a times
unfolding Later
Later-mono [] h all = tt
Later-mono (now ∷ rest) h (le, all) = (omega arith, all)

-- Inside the window of a bucket, what is left of it.
allowed-in_bucket :
    (key start count : ℕ) (times : List ℕ) (l : Limiter)
    → bucket_of key l ≡ (start, count)
    → Before (start + l.window) times
    → 0 < l.window
    → allowed key times l ≤ l.max_requests - count
unfolding Before
allowed-in_bucket key start count [] l e all w = omega (arith, allowed-nil key l)
allowed-in_bucket key start count (now ∷ rest) l e (lt, all) w =
    rw (allowed-cons key now rest l, e)
      (ground (
        arith,
        allowed-in_bucket key start count rest (put key (start, count) l) (bucket_of-put key _ l)
            all w,
        allowed-in_bucket key start (count + 1) rest (put key (start, count + 1) l)
            (bucket_of-put key _ l) all w,
      ))

-- Requests of one key inside a stretch of one window's length: a new window opens at most once.
allowed-bound :
    (key t start count : ℕ) (times : List ℕ) (l : Limiter)
    → bucket_of key l ≡ (start, count)
    → Later t times
    → Before (t + l.window) times
    → 0 < l.window
    → allowed key times l ≤ l.max_requests - count + max l.max_requests 1
unfolding Later Before
allowed-bound key t start count [] l e late all w = omega (arith, allowed-nil key l)
allowed-bound key t start count (now ∷ rest) l e (late, more) (lt, all) w =
    rw (allowed-cons key now rest l, e)
      (ground (
        arith,
        allowed-in_bucket key now 1 rest (put key (now, 1) l) (bucket_of-put key _ l)
            (Before-mono rest (omega arith) all) w,
        allowed-bound key t start count rest (put key (start, count) l) (bucket_of-put key _ l)
            (Later-mono rest late more) all w,
        allowed-bound key t start (count + 1) rest (put key (start, count + 1) l)
            (bucket_of-put key _ l) (Later-mono rest late more) all w,
      ))

-- The requests of one key that fall into any stretch as long as the window, at instants that do not
-- go back, are let through at most twice as often as the limit allows (a limit of 0 counts as 1),
-- whatever was asked before.
pub allowed-at_most :
    (key t : ℕ) (times : List ℕ) (l : Limiter)
    → 0 < l.window
    → Later t times
    → Before (t + l.window) times
    → allowed key times l ≤ 2 * max l.max_requests 1
allowed-at_most key t times l w late all =
    omega
      (arith, allowed-bound key t (bucket_of key l).0 (bucket_of key l).1 times l refl late all w)
