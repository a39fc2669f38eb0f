-- ===== src/RateLimit/SlidingWindow.antt =====
-- backend/src/core/rate-limit/sliding-window.ts: the sliding and the fixed window. The random ids of
-- `uuidv4` are the argument `ids`, one text for each index.
use Prim.Native.Nat.{◌/◌}
use nestra.Prelude.{
  ℕ, zero, suc, ◌+◌, ◌-◌, String, Bool, true, false, Option, none, some, ltb, leb, if◌then◌else◌,
}
use nestra.RateLimit.{RateLimitStorage, zadd, zremrangebyscore, zcount, del}

pub record SlidingWindowConfig : Type 0 where
  pub window_ms : ℕ
  pub max_requests : ℕ

pub record RateLimitResult : Type 0 where
  pub allowed : Bool
  pub remaining : ℕ
  pub reset_at : ℕ
  pub retry_after : Option ℕ

-- `sw:${key}`
abbrev pub window_key : String → String
window_key key = String.◌∷◌ "s" (String.◌∷◌ "w" (String.◌∷◌ ":" key))

-- `Math.ceil(ms / 1000)`
abbrev pub seconds : ℕ → ℕ
seconds ms = (ms + 999) / 1000

-- The loop that adds the requests, from the index `i` on with `n` rounds left.
unfoldable pub add_requests :
    RateLimitStorage → String → ℕ → (ℕ → String) → ℕ → ℕ → RateLimitStorage
unfolding zadd
add_requests s key now ids i zero = s
add_requests s key now ids i (suc n) = add_requests (zadd s key now (ids i)) key now ids (i + 1) n

-- The clock is later than the length of a window, so `windowStart` is not negative.
unfoldable pub consume_sliding :
    SlidingWindowConfig
    → RateLimitStorage
    → ℕ
    → (ℕ → String)
    → String
    → ℕ
    → RateLimitResult × RateLimitStorage
unfolding zremrangebyscore zcount add_requests
consume_sliding c s now ids key tokens =
    let start = now - c.window_ms in
    let (_, t) = zremrangebyscore s (window_key key) 0 start in
    let count = zcount t (window_key key) start now in
    if leb (count + tokens) c.max_requests
    then (
      record {
        allowed = true;
        remaining = c.max_requests - count - tokens;
        reset_at = now + c.window_ms;
        retry_after = none;
      },
      add_requests t (window_key key) now ids 0 tokens,
    )
    else (
      record {
        allowed = false;
        remaining = 0;
        reset_at = now + c.window_ms;
        retry_after = some (seconds c.window_ms);
      },
      t,
    )

unfoldable pub check_sliding : SlidingWindowConfig → RateLimitStorage → ℕ → String → RateLimitResult
unfolding zcount
check_sliding c s now key =
    let count = zcount s (window_key key) (now - c.window_ms) now in
    record {
      allowed = ltb count c.max_requests;
      remaining = c.max_requests - count;
      reset_at = now + c.window_ms;
      retry_after = none;
    }

unfoldable pub reset_sliding : RateLimitStorage → String → RateLimitStorage
unfolding del
reset_sliding s key = del s (window_key key)
