-- ===== src/RateLimit/TokenBucket.antt =====
-- backend/src/core/rate-limit/token-bucket.ts. The numbers are natural ones: the configuration is,
-- and only whole tokens are stored. One call reads the clock once here.
use Prim.Native.Nat.{◌/◌}
use nestra.Prelude.{
  ℕ, ◌+◌, ◌-◌, ◌*◌, String, true, false, Option, none, some, ltb, leb, if◌then◌else◌,
}
use nestra.FreeRects.{min}
use nestra.RateLimit.{RateLimitStorage, get_value, set_value, del}
use nestra.RateLimit.SlidingWindow.{RateLimitResult, seconds}

pub record TokenBucketConfig : Type 0 where
  pub capacity : ℕ
  pub refill_rate : ℕ
  pub refill_interval : ℕ

pub record BucketState : Type 0 where
  pub tokens : ℕ
  pub last_refill : ℕ

-- `tb:${key}`
abbrev pub bucket_key : String → String
bucket_key key = String.◌∷◌ "t" (String.◌∷◌ "b" (String.◌∷◌ ":" key))

-- `Math.ceil(a / b)`, for a divisor that is not 0.
abbrev pub ceil_div : ℕ → ℕ → ℕ
ceil_div a b = (a + (b - 1)) / b

unfoldable pub refill_bucket : TokenBucketConfig → BucketState → ℕ → BucketState
refill_bucket c state now =
    let intervals = (now - state.last_refill) / c.refill_interval in
    if ltb 0 intervals
    then record {
      tokens = min c.capacity (state.tokens + intervals * c.refill_rate);
      last_refill = state.last_refill + intervals * c.refill_interval;
    }
    else state

unfoldable pub calculate_reset_time : TokenBucketConfig → BucketState → ℕ → ℕ
calculate_reset_time c state now =
    now + ceil_div (c.capacity - state.tokens) c.refill_rate * c.refill_interval

unfoldable pub calculate_retry_after : TokenBucketConfig → BucketState → ℕ → ℕ
calculate_retry_after c state needed =
    seconds (ceil_div (needed - state.tokens) c.refill_rate * c.refill_interval)

-- The case of a value: the time of the last refill is not stored, and is that of the call.
unfoldable pub deserialize_state : ℕ → ℕ → BucketState
deserialize_state value now = record { tokens = value; last_refill = now }

unfoldable pub save_state :
    TokenBucketConfig → RateLimitStorage → ℕ → String → BucketState → RateLimitStorage
unfolding set_value
save_state c s now key state =
    set_value s now key state.tokens (ceil_div (c.capacity * c.refill_interval) c.refill_rate * 2)

-- What `consume` and `check` start from.
unfoldable pub current_state : TokenBucketConfig → Option ℕ → ℕ → BucketState
unfolding refill_bucket deserialize_state
current_state c none now = record { tokens = c.capacity; last_refill = now }
current_state c (some value) now = refill_bucket c (deserialize_state value now) now

unfoldable pub consume_bucket :
    TokenBucketConfig → RateLimitStorage → ℕ → String → ℕ → RateLimitResult × RateLimitStorage
unfolding get_value current_state save_state calculate_reset_time calculate_retry_after
consume_bucket c s now key tokens =
    let (stored, t) = get_value s now (bucket_key key) in
    let state = current_state c stored now in
    let left : BucketState = record state { tokens = state.tokens - tokens } in
    if leb tokens state.tokens
    then (
      record {
        allowed = true;
        remaining = left.tokens;
        reset_at = calculate_reset_time c left now;
        retry_after = none;
      },
      save_state c t now (bucket_key key) left,
    )
    else (
      record {
        allowed = false;
        remaining = state.tokens;
        reset_at = calculate_reset_time c state now;
        retry_after = some (calculate_retry_after c state tokens);
      },
      t,
    )

unfoldable pub reset_bucket : RateLimitStorage → String → RateLimitStorage
unfolding del
reset_bucket s key = del s (bucket_key key)

unfoldable pub check_bucket :
    TokenBucketConfig → RateLimitStorage → ℕ → String → RateLimitResult × RateLimitStorage
unfolding get_value refill_bucket deserialize_state calculate_reset_time
check_bucket c s now key =
    let (stored, t) = get_value s now (bucket_key key) in
    elim stored [
      | none ↦ (
        record {
          allowed = true;
          remaining = c.capacity;
          reset_at = now + c.refill_interval;
          retry_after = none;
        },
        t,
      )
      | some value ↦
          let state = refill_bucket c (deserialize_state value now) now in
          (
            record {
              allowed = leb 1 state.tokens;
              remaining = state.tokens;
              reset_at = calculate_reset_time c state now;
              retry_after = none;
            },
            t,
          )
    ]
