-- ===== src/RateLimit.antt =====
-- The request limiter, app/core/ratelimit.py. Instants are whole ticks of the monotonic clock and
-- keys are numbers; a call of `allow` holds the lock throughout, so calls come one after another.
pub mod Window
mod Tests
use avora_be.Prelude.{
  ℕ, suc, ◌+◌, ◌-◌, Bool, true, false, Option, none, some, List, [], ◌∷◌, ltb, leb, if◌then◌else◌,
}
use avora_be.Prelude.Dict.{Dict, lookup, insert}

pub record Limiter : Type 0 where
  pub max_requests : ℕ
  pub window : ℕ
  -- key ↦ (start of its window, requests in it)
  pub buckets : Dict (ℕ × ℕ)

-- `self._buckets[key]`, with the default of the `defaultdict`.
abbrev pub bucket_of : ℕ → Limiter → ℕ × ℕ
bucket_of key l = elim (lookup key l.buckets) [ none ↦ (0, 0) | some b ↦ b ]

-- `allow`: the answer and the limiter after the call.
unfoldable pub allow : ℕ → ℕ → Limiter → Bool × Limiter
allow now key l =
    let (start, count) = bucket_of key l in
    if leb l.window (now - start)
    then (true, record l { buckets = insert key (now, 1) l.buckets })
    else if leb l.max_requests count
    then (false, record l { buckets = insert key (start, count) l.buckets })
    else (true, record l { buckets = insert key (start, count + 1) l.buckets })
