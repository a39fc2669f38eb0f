-- ===== src/RateLimit.antt =====
-- backend/src/core/rate-limit/storage.ts, MemoryRateLimitStorage: the counters and the sorted sets
-- of the limiters. The time, in milliseconds, is an argument of what calls Date.now(), and a method
-- that writes returns the written storage.
pub mod SlidingWindow
pub mod TokenBucket
pub mod Bounds
pub mod Requests
mod Tests
use text.Mathlib.Text.{◌==◌ as str_eq}
use nestra.Prelude.{
  ℕ, ◌+◌, ◌-◌, String, Bool, ◌&&◌, ◌||◌, List, [], ◌∷◌, ◌++◌, Option, none, some, ltb, leb, length,
  select, if◌then◌else◌,
}
use nestra.Prelude.Dict.{lookup, insert}
use nestra.Prelude.Sorting.{sort_by}

pub record MemoryEntry : Type 0 where
  pub value : ℕ
  pub expires_at : ℕ

pub record SortedSetEntry : Type 0 where
  pub score : ℕ
  pub member : String

pub record RateLimitStorage : Type 0 where
  pub data_entries : List (String × MemoryEntry)
  pub sorted_sets : List (String × List SortedSetEntry)

-- `Map.delete`
unfoldable pub delete {ℓ} : {V : Type ℓ} → String → List (String × V) → List (String × V)
delete k [] = []
delete k ((j, v) ∷ m) = if str_eq j k then m else (j, v) ∷ delete k m

unfoldable pub get_value : RateLimitStorage → ℕ → String → Option ℕ × RateLimitStorage
unfolding lookup delete
get_value s now key = elim (lookup key s.data_entries) [
  | none ↦ (none, s)
  | some e ↦
      if ltb e.expires_at now
      then (none, record s { data_entries = delete key s.data_entries })
      else (some e.value, s)
]

unfoldable pub set_value : RateLimitStorage → ℕ → String → ℕ → ℕ → RateLimitStorage
unfolding insert
set_value s now key value ttl = record s {
  data_entries = insert key (record { value = value; expires_at = now + ttl }) s.data_entries;
}

abbrev pub or_zero : Option ℕ → ℕ
or_zero none = 0
or_zero (some n) = n

unfoldable pub incr : RateLimitStorage → ℕ → String → ℕ → ℕ × RateLimitStorage
unfolding get_value set_value
incr s now key ttl =
    let (current, t) = get_value s now key in
    (or_zero current + 1, set_value t now key (or_zero current + 1) ttl)

-- `findIndex` by member and `splice`.
unfoldable pub remove_member : String → List SortedSetEntry → List SortedSetEntry
remove_member member [] = []
remove_member member (e ∷ es) = if str_eq e.member member then es else e ∷ remove_member member es

abbrev pub or_no_entries : Option (List SortedSetEntry) → List SortedSetEntry
or_no_entries none = []
or_no_entries (some es) = es

abbrev pub set_at : RateLimitStorage → String → List SortedSetEntry
set_at s key = or_no_entries (lookup key s.sorted_sets)

unfoldable pub zadd : RateLimitStorage → String → ℕ → String → RateLimitStorage
unfolding lookup insert remove_member sort_by
zadd s key score member = record s {
  sorted_sets =
      insert key
        (sort_by (λ a b. leb a.score b.score)
          (remove_member member (set_at s key) ++ record { score = score; member = member } ∷ []))
        s.sorted_sets;
}

unfoldable pub zremrangebyscore : RateLimitStorage → String → ℕ → ℕ → ℕ × RateLimitStorage
unfolding lookup insert
zremrangebyscore s key min max = elim (lookup key s.sorted_sets) [
  | none ↦ (0, s)
  | some es ↦
      let filtered = select (λ e. ltb e.score min || ltb max e.score) es in
      (length es - length filtered, record s { sorted_sets = insert key filtered s.sorted_sets })
]

unfoldable pub zcount : RateLimitStorage → String → ℕ → ℕ → ℕ
unfolding lookup
zcount s key min max = elim (lookup key s.sorted_sets) [
  | none ↦ 0
  | some es ↦ length (select (λ e. leb min e.score && leb e.score max) es)
]

unfoldable pub del : RateLimitStorage → String → RateLimitStorage
unfolding delete
del s key = record {
  data_entries = delete key s.data_entries;
  sorted_sets = delete key s.sorted_sets;
}

-- The timer's `cleanup`, which logs how many entries it removed.
unfoldable pub cleanup : RateLimitStorage → ℕ → RateLimitStorage
cleanup s now = record s { data_entries = select (λ e. leb now e.1.expires_at) s.data_entries }
