-- ===== src/RateLimit/Window.antt =====
-- How many requests pass within one window.
use backendurdubolonest.Base.{
  ℕ, ◌+◌, ◌-◌, ◌*◌, ◌≤◌, ◌≡◌, refl, ap, ◌∙◌, Bool, true, false, ◌&&◌, none, some, List, [], ◌∷◌,
  arith, ltb, leb, ◌==◌, all, Bool-cases, inl, inr,
}
use backendurdubolonest.RateLimit.{
  Counters, RateLimitOptions, GuardedRequest, increment_with_expiry, can_activate, count_passed,
}

-- Redis answers, and the request comes within the times.
abbrev pub is_within : ℕ → ℕ → GuardedRequest → Bool
is_within from until r = r.is_up && (leb from r.now && ltb r.now until)

after-same :
    (options : RateLimitOptions) (key from until n : ℕ) (r : GuardedRequest) (store : Counters)
    → store key ≡ some (record { amount = n + 1; expires_at = some until })
    → is_within from until r ≡ true
    → r.key ≡ key
    → ((can_activate options r store).1 key
        ≡ some (record { amount = n + 1 + 1; expires_at = some until }))
      × ((can_activate options r store).0 ≡ leb (n + 1 + 1) options.limit)
unfolding can_activate increment_with_expiry
after-same options key from until n r store has within same =
    (ground (arith, ap store same), ground (arith, ap store same))

after-other :
    (options : RateLimitOptions) (key : ℕ) (r : GuardedRequest) (store : Counters)
    → (r.key == key) ≡ false
    → (can_activate options r store).1 key ≡ store key
unfolding can_activate increment_with_expiry
after-other options key r store other = ground arith

-- A counter that does not expire before the last request leaves what is missing to the limit.
count_passed-counter :
    (options : RateLimitOptions) (key from until n : ℕ) (requests : List GuardedRequest)
    (store : Counters)
    → store key ≡ some (record { amount = n + 1; expires_at = some until })
    → all (is_within from until) requests ≡ true
    → count_passed options key requests store ≤ options.limit - (n + 1)
unfolding count_passed
count_passed-counter options key from until n [] store has within = ground arith
count_passed-counter options key from until n (r ∷ rs) store has within =
    elim (Bool-cases (r.key == key)) [
      | inl e ↦
          let (same, amount) =
            after-same options key from until n r store has (ground arith) (ground arith) in
          ground (
            arith,
            e,
            amount,
            count_passed-counter options key from until (n + 1) rs (can_activate options r store).1
                same (ground arith),
          )
      | inr e ↦ ground (
        arith,
        e,
        count_passed-counter options key from until n rs (can_activate options r store).1
            (after-other options key r store e ∙ has) (ground arith),
      )
    ]

after-first :
    (options : RateLimitOptions) (key from until : ℕ) (r : GuardedRequest) (store : Counters)
    → store key ≡ none
    → is_within from until r ≡ true
    → r.key ≡ key
    → ((can_activate options r store).1 key
        ≡ some (record { amount = 1; expires_at = some (r.now + options.window_seconds * 1000) }))
      × ((can_activate options r store).0 ≡ leb 1 options.limit)
unfolding can_activate increment_with_expiry
after-first options key from until r store fresh within same =
    (ground (arith, ap store same), ground (arith, ap store same))

within-later :
    (from until later : ℕ) (rs : List GuardedRequest)
    → until ≤ later
    → all (is_within from until) rs ≡ true
    → all (is_within from later) rs ≡ true
within-later from until later [] le within = refl
within-later from until later (r ∷ rs) le within =
    ground (arith, within-later from until later rs le)

-- In a sequence of requests that all come within one window and that Redis answers, at most as
-- many requests with a key pass as the limit says, however requests with other keys are mixed in,
-- if there is no counter for the key before.
pub count_passed-limit :
    (options : RateLimitOptions) (key from : ℕ) (requests : List GuardedRequest) (store : Counters)
    → store key ≡ none
    → all (is_within from (from + options.window_seconds * 1000)) requests ≡ true
    → count_passed options key requests store ≤ options.limit
unfolding count_passed
count_passed-limit options key from [] store fresh within = ground arith
count_passed-limit options key from (r ∷ rs) store fresh within = elim (Bool-cases (r.key == key)) [
  | inl e ↦
      let until = r.now + options.window_seconds * 1000 in
      let (first, passes) =
        after-first options key from (from + options.window_seconds * 1000) r store fresh
          (ground arith) (ground arith) in
      ground (
        arith,
        e,
        passes,
        count_passed-counter options key from until 0 rs (can_activate options r store).1 first (
            within-later from (from + options.window_seconds * 1000) until rs (ground arith)
              (ground arith)),
      )
  | inr e ↦ ground (
    arith,
    e,
    count_passed-limit options key from rs (can_activate options r store).1
        (after-other options key r store e ∙ fresh) (ground arith),
  )
]
