-- ===== src/RateLimit.antt =====
-- src/common/security/redis-rate-limit.guard.ts, and `incrementWithExpiry` of
-- src/common/redis/redis.service.ts. Redis is a map from keys to counters; a counter whose expiry
-- has come counts as absent. The key, which the guard builds from the scope, the route and the
-- actor, is a number.
pub mod Window
use backendurdubolonest.Base.{
  ℕ, ◌+◌, ◌*◌, Bool, true, Option, none, some, List, [], ◌∷◌, ltb, leb, ◌==◌, if◌then◌else◌,
}

pub record Counter : Type 0 where
  pub amount : ℕ
  pub expires_at : Option ℕ

abbrev pub Counters : Type 0
Counters = ℕ → Option Counter

abbrev is_live : ℕ → Option ℕ → Bool
is_live now none = true
is_live now (some until) = ltb now until

abbrev if_live : ℕ → Option Counter → Option Counter
if_live now none = none
if_live now (some c) = if is_live now c.expires_at then some c else none

-- `INCR`, and `EXPIRE` where the new value is one.
abbrev pub incremented : ℕ → ℕ → Option Counter → Counter
incremented ttl_seconds now none = record {
  amount = 1;
  expires_at = some (now + ttl_seconds * 1000);
}
incremented ttl_seconds now (some c) = record {
  amount = c.amount + 1;
  expires_at = if c.amount + 1 == 1 then some (now + ttl_seconds * 1000) else c.expires_at;
}

unfoldable pub increment_with_expiry : ℕ → ℕ → ℕ → Counters → ℕ × Counters
increment_with_expiry key ttl_seconds now store =
    let c = incremented ttl_seconds now (if_live now (store key)) in
    (c.amount, λ k. if k == key then some c else store k)

pub record RateLimitOptions : Type 0 where
  pub limit : ℕ
  pub window_seconds : ℕ

-- A request that reaches the guard; `is_up` is whether Redis answers.
pub record GuardedRequest : Type 0 where
  pub key : ℕ
  pub now : ℕ
  pub is_up : Bool

-- Whether the request passes; where Redis does not answer, the count is zero.
unfoldable pub can_activate : RateLimitOptions → GuardedRequest → Counters → Bool × Counters
unfolding increment_with_expiry
can_activate options request store =
    if request.is_up
    then (let (amount, after) =
          increment_with_expiry request.key options.window_seconds request.now store in
        (leb amount options.limit, after))
    else (leb 0 options.limit, store)

-- How many of the requests with the key pass, in a sequence of requests.
unfoldable pub count_passed : RateLimitOptions → ℕ → List GuardedRequest → Counters → ℕ
unfolding can_activate
count_passed options key [] store = 0
count_passed options key (request ∷ requests) store =
    let (passes, after) = can_activate options request store in
    let rest = count_passed options key requests after in
    if request.key == key then (if passes then 1 + rest else rest) else rest
