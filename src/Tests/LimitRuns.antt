-- ===== src/Tests/LimitRuns.antt =====
-- A run of the rate limit, and its theorem at this run.
use backendurdubolonest.Base.{ℕ, ◌≤◌, refl, true, none, List, [], ◌∷◌}
use backendurdubolonest.RateLimit.{RateLimitOptions, GuardedRequest, count_passed}
use backendurdubolonest.RateLimit.Window.{count_passed-limit}

abbrev two_a_minute : RateLimitOptions
two_a_minute = record { limit = 2; window_seconds = 60 }

abbrev asked : ℕ → ℕ → GuardedRequest
asked key now = record { key = key; now = now; is_up = true }

abbrev asked_all : List GuardedRequest
asked_all = asked 1 10 ∷ asked 2 20 ∷ asked 1 30 ∷ asked 1 40 ∷ asked 1 59_000 ∷ []

count_passed-limit_example : count_passed two_a_minute 1 asked_all (λ k. none) ≤ 2
count_passed-limit_example = count_passed-limit two_a_minute 1 10 asked_all (λ k. none) refl refl
