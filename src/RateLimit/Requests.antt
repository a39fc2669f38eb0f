-- ===== src/RateLimit/Requests.antt =====
-- Series of requests to the limiters of core/rate-limit (sliding-window.ts, token-bucket.ts).
use text.Mathlib.Text.{◌==◌ as str_eq}
use text.Mathlib.TextEquality.{eq_iff}
use Prim.Native.Nat.{◌/◌}
use nestra.Prelude.{
  ℕ, ◌+◌, ◌-◌, ◌*◌, ◌≤◌, ◌<◌, ◌≡◌, refl, ap, subst, ◌∙◌, inl, inr, String, true, false, ◌&&◌, ◌||◌,
  List, [], ◌∷◌, some, leb, ltb, if◌then◌else◌, ◌↔◌, length, All-map, All-select, Bool-cases, arith,
}
use nestra.Prelude.Dict.{lookup, insert, lookup-insert}
use nestra.RateLimit.{
  MemoryEntry, RateLimitStorage, SortedSetEntry, set_at, zremrangebyscore, zcount, get_value,
  set_value,
}
use nestra.RateLimit.SlidingWindow.{SlidingWindowConfig, window_key, add_requests, consume_sliding}
use nestra.RateLimit.TokenBucket.{
  TokenBucketConfig, bucket_key, refill_bucket, deserialize_state, current_state, save_state,
  consume_bucket, BucketState, ceil_div,
}
use nestra.RateLimit.Bounds.{
  IsLimited, length-select, add_requests_self, add_requests_other, zremrangebyscore_self,
  zremrangebyscore_other, count_fresh, zcount-eq,
}

pub record Request : Type 0 where
  pub now : ℕ
  pub ids : ℕ → String
  pub key : String
  pub tokens : ℕ

abbrev pub no_storage : RateLimitStorage
no_storage = record { data_entries = []; sorted_sets = [] }

-- The storage after a series of calls of `consume`.
unfoldable pub serve : SlidingWindowConfig → RateLimitStorage → List Request → RateLimitStorage
serve c s [] = s
serve c s (r ∷ rs) = serve c (consume_sliding c s r.now r.ids r.key r.tokens).1 rs

-- The requests come in the order of time, none before `t`.
abbrev pub IsChronological : ℕ → List Request → Type 0
IsChronological t [] = Unit
IsChronological t (r ∷ rs) = (t ≤ r.now) × IsChronological r.now rs

abbrev AllLimited : ℕ → ℕ → RateLimitStorage → Type 0
AllLimited m now s = (k : String) → IsLimited m now (set_at s k)

later : (m t now : ℕ) (es : List SortedSetEntry) → t ≤ now → IsLimited m t es → IsLimited m now es
later m t now es h (a, b) = (a, All-map (λ e k. omega arith) es b)

module _ (c : SlidingWindowConfig) (s : RateLimitStorage) (r : Request) (m t : ℕ)
    (order : t ≤ r.now) (limited : AllLimited m t s) where
  abbrev start : ℕ
  start = r.now - c.window_ms

  abbrev cleared : RateLimitStorage
  cleared = (zremrangebyscore s (window_key r.key) 0 start).1

  cleared-AllLimited : AllLimited m r.now cleared
  cleared-AllLimited k = elim (Bool-cases (str_eq (window_key r.key) k)) [
    | inr e ↦
        rw (zremrangebyscore_other s (window_key r.key) k start e)
          (later m t r.now (set_at s k) order (limited k))
    | inl e ↦
        let es = set_at s (window_key r.key) in
        let (a, b) = later m t r.now es order (limited (window_key r.key)) in
        subst (λ z. IsLimited m r.now (set_at cleared z)) ((eq_iff (window_key r.key) k).0 e)
          (rw (zremrangebyscore_self s (window_key r.key) start) (
            omega (arith, length-select (λ x. ltb x.score 0 || ltb start x.score) es),
            All-select (λ x. x.score ≤ r.now) (λ x. ltb x.score 0 || ltb start x.score) es b,
          ))
  ]

  -- The count that `consume` takes is that of all entries that are left.
  cleared-zcount :
      zcount cleared (window_key r.key) start r.now ≡ length (set_at cleared (window_key r.key))
  cleared-zcount =
      let (_, b) =
        later m t r.now (set_at s (window_key r.key)) order (limited (window_key r.key)) in
      zcount-eq cleared (window_key r.key) start r.now
      ∙ rw (zremrangebyscore_self s (window_key r.key) start)
          (count_fresh start r.now (set_at s (window_key r.key)) b)

  consume_sliding-AllLimited :
      m ≡ c.max_requests → AllLimited m r.now (consume_sliding c s r.now r.ids r.key r.tokens).1
  unfolding consume_sliding
  consume_sliding-AllLimited same k =
      let count = zcount cleared (window_key r.key) start r.now in
      elim (Bool-cases (leb (count + r.tokens) c.max_requests)) [
        | inr e ↦ rw (e, consume_sliding) (cleared-AllLimited k)
        | inl e ↦ elim (Bool-cases (str_eq (window_key r.key) k)) [
          | inr f ↦
              rw
                (
                  e,
                  consume_sliding,
                  add_requests_other cleared (window_key r.key) k r.now 0 r.tokens r.ids f,
                )
                (cleared-AllLimited k)
          | inl f ↦
              let room : length (set_at cleared (window_key r.key)) + r.tokens ≤ m =
                ground (arith, cleared-zcount, same) in
              let (a, b) =
                add_requests_self cleared (window_key r.key) r.now
                  (length (set_at cleared (window_key r.key))) 0 r.tokens r.ids
                  (omega arith, (cleared-AllLimited (window_key r.key)).1) in
              let both : IsLimited m r.now (
                  set_at (add_requests cleared (window_key r.key) r.now r.ids 0 r.tokens)
                    (window_key r.key)) =
                (omega arith, b) in
              rw (e, consume_sliding)
                (subst
                  (λ z.
                    IsLimited m r.now
                      (set_at (add_requests cleared (window_key r.key) r.now r.ids 0 r.tokens) z))
                  ((eq_iff (window_key r.key) k).0 f) both)
        ]
      ]

serve-AllLimited :
    (c : SlidingWindowConfig) (s : RateLimitStorage) (rs : List Request) (t : ℕ)
    → IsChronological t rs
    → AllLimited c.max_requests t s
    → (u : ℕ) × AllLimited c.max_requests u (serve c s rs)
unfolding serve
serve-AllLimited c s [] t h k = (t, k)
serve-AllLimited c s (r ∷ rs) t h k =
    serve-AllLimited c (consume_sliding c s r.now r.ids r.key r.tokens).1 rs r.now h.1
      (consume_sliding-AllLimited c s r c.max_requests t h.0 k refl)

-- After any series of requests in the order of time, whatever their keys and numbers of tokens, the
-- sliding window has at most `maxRequests` entries for a key in any range of time.
pub serve_bounds :
    (c : SlidingWindowConfig) (rs : List Request) (key : String) (lo hi : ℕ)
    → IsChronological 0 rs
    → zcount (serve c no_storage rs) (window_key key) lo hi ≤ c.max_requests
serve_bounds c rs key lo hi h =
    let (u, k) = serve-AllLimited c no_storage rs 0 h none_yet in
    omega (
      arith,
      zcount-eq (serve c no_storage rs) (window_key key) lo hi,
      length-select (λ e. leb lo e.score && leb e.score hi)
          (set_at (serve c no_storage rs) (window_key key)),
      (k (window_key key)).0,
    )
  where
    none_yet : AllLimited c.max_requests 0 no_storage
    none_yet k = unfold lookup in (omega arith, tt)

-- A stored state is never refilled.
current_state_stored :
    (c : TokenBucketConfig) (value now : ℕ)
    → 0 < c.refill_interval
    → (current_state c (some value) now).tokens ≡ value
unfolding current_state refill_bucket deserialize_state
current_state_stored c value now h =
    let none_elapsed : (now - now) / c.refill_interval ≡ 0 = grind arith in rw none_elapsed refl

get_value_live :
    (s : RateLimitStorage) (now : ℕ) (key : String) (e : MemoryEntry)
    → lookup key s.data_entries ≡ some e
    → now ≤ e.expires_at
    → get_value s now key ≡ (some e.value, s)
unfolding get_value
get_value_live s now key e found lives =
    let fresh_entry : ltb e.expires_at now ≡ false = ground arith in
    rw (found, fresh_entry, get_value) refl

get_value_saved :
    (c : TokenBucketConfig) (s : RateLimitStorage) (now : ℕ) (key : String) (state : BucketState)
    → (get_value (save_state c s now key state) now key).0 ≡ some state.tokens
get_value_saved c s now key state =
    let ttl = ceil_div (c.capacity * c.refill_interval) c.refill_rate * 2 in
    let entry : MemoryEntry = record { value = state.tokens; expires_at = now + ttl } in
    let t : RateLimitStorage = record s { data_entries = insert key entry s.data_entries } in
    let found : lookup key t.data_entries ≡ some entry =
      rw (lookup-insert key key entry s.data_entries, (eq_iff key key).1 refl) refl in
    let saved : save_state c s now key state ≡ t =
      unfold save_state in (unfold set_value in refl) in
    rw saved (ap (λ z. z.0) (get_value_live t now key entry found (omega arith)))

-- If the refill interval is positive, then while the entry of a bucket lives, however long ago it was
-- written, no token is added: `consume` admits a request exactly if the stored number of tokens is
-- at least as large, and the number that is left and stored is the old one, less the tokens of the
-- request where it is admitted.
pub consume_bucket_starved :
    (c : TokenBucketConfig) (s : RateLimitStorage) (now : ℕ) (key : String) (tokens : ℕ)
    (e : MemoryEntry)
    → 0 < c.refill_interval
    → lookup (bucket_key key) s.data_entries ≡ some e
    → now ≤ e.expires_at
    → let (result, t) = consume_bucket c s now key tokens in
      let left = e.value - (if leb tokens e.value then tokens else 0) in
      ((result.allowed ≡ true) ↔ (tokens ≤ e.value))
      × (result.remaining ≡ left)
      × ((get_value t now (bucket_key key)).0 ≡ some left)
unfolding consume_bucket
consume_bucket_starved c s now key tokens e h found lives =
    let state = current_state c (some e.value) now in
    let same : state.tokens ≡ e.value = current_state_stored c e.value now h in
    let stored = get_value_live s now (bucket_key key) e found lives in
    elim (Bool-cases (leb tokens e.value)) [
      | inl f ↦
          let test : leb tokens state.tokens ≡ true = ground (arith, same, f) in
          rw (stored, test, f, consume_bucket)
            (
              ((λ _. ground arith), (λ _. refl)),
              omega (arith, same),
              get_value_saved c s now (bucket_key key)
                    (record state { tokens = state.tokens - tokens })
                  ∙ rw same refl,
            )
      | inr f ↦
          let test : leb tokens state.tokens ≡ false = ground (arith, same, f) in
          let whole : e.value ≡ e.value - 0 = omega arith in
          rw (stored, test, f, consume_bucket)
            (
              ((λ k. absurd (ground arith)), (λ k. absurd (ground arith))),
              omega (arith, same),
              ap (λ z. z.0) stored ∙ ap some whole,
            )
    ]
