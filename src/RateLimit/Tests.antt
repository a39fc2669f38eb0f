-- ===== src/RateLimit/Tests.antt =====
-- The theorems on the limiters at concrete inputs.
use nestra.Prelude.{◌≤◌, ◌↔◌, ◌≡◌, [], ◌∷◌, some, true, arith, refl}
use nestra.Prelude.Dict.{lookup}
use nestra.RateLimit.{RateLimitStorage, zcount, get_value}
use nestra.RateLimit.SlidingWindow.{SlidingWindowConfig, window_key}
use nestra.RateLimit.TokenBucket.{TokenBucketConfig, bucket_key, consume_bucket}
use nestra.RateLimit.Requests.{Request, no_storage, serve, serve_bounds, consume_bucket_starved}

abbrev window : SlidingWindowConfig
window = record { window_ms = 1000; max_requests = 2 }

abbrev request : Request
request = record { now = 5000; ids = λ i. "id"; key = "user"; tokens = 1 }

serve_bounds_example :
    zcount
      (serve window no_storage (request ∷ request ∷ record request { now = 5500 } ∷ []))
      (window_key "user")
      4500
      5500
    ≤ 2
serve_bounds_example =
    serve_bounds window (request ∷ request ∷ record request { now = 5500 } ∷ []) "user" 4500 5500
      (omega arith, (omega arith, (omega arith, tt)))

abbrev bucket : TokenBucketConfig
bucket = record { capacity = 10; refill_rate = 5; refill_interval = 1000 }

-- A bucket with one token, saved 3 seconds ago.
abbrev old_bucket : RateLimitStorage
old_bucket = record {
  data_entries = (bucket_key "user", record { value = 1; expires_at = 9000 }) ∷ [];
  sorted_sets = [];
}

bucket_found :
    lookup (bucket_key "user") old_bucket.data_entries
    ≡ some (record { value = 1; expires_at = 9000 })
unfolding lookup
bucket_found = refl

consume_bucket_starved_example :
    let (result, t) = consume_bucket bucket old_bucket 8000 "user" 2 in
    ((result.allowed ≡ true) ↔ (2 ≤ 1))
    × (result.remaining ≡ 1)
    × ((get_value t 8000 (bucket_key "user")).0 ≡ some 1)
consume_bucket_starved_example =
    consume_bucket_starved bucket old_bucket 8000 "user" 2 (record { value = 1; expires_at = 9000 })
      (omega arith) bucket_found (omega arith)
