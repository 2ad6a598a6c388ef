-- ===== src/RateLimit/Tests.antt =====
-- The limiter of app/core/ratelimit.py on a burst of requests.
use avora_be.Prelude.{◌*◌, ◌≤◌, ◌≡◌, refl, max, [], ◌∷◌, arith}
use avora_be.RateLimit.{Limiter, allow}
use avora_be.RateLimit.Window.{allowed, Later, Before, allowed-at_most}

abbrev limiter : Limiter
limiter = record { max_requests = 2; window = 60; buckets = [] }

-- Two at the end of one window and two at the start of the next: the bound is reached.
burst : allowed 1 (59 ∷ 59 ∷ 59 ∷ 60 ∷ 61 ∷ 62 ∷ []) limiter ≡ 4
unfolding allowed allow
burst = refl

allowed-at_most_example : allowed 1 (59 ∷ 59 ∷ 59 ∷ 60 ∷ 61 ∷ 62 ∷ []) limiter ≤ 2 * max 2 1
unfolding Later Before
allowed-at_most_example =
    allowed-at_most 1 59 (59 ∷ 59 ∷ 59 ∷ 60 ∷ 61 ∷ 62 ∷ []) limiter (omega arith) (ground arith)
      (ground arith)
