-- ===== src/RateLimit/Bounds.antt =====
-- The entries of the sliding window limiter (core/rate-limit/sliding-window.ts, storage.ts).
use text.Mathlib.Text.{◌==◌ as str_eq}
use text.Mathlib.TextEquality.{eq_iff}
use nestra.Prelude.{
  ℕ, zero, suc, ◌+◌, ◌≤◌, ◌≡◌, refl, ap, ◌∙◌, inl, inr, String, Bool, true, false, ◌&&◌, ◌||◌, List,
  [], ◌∷◌, ◌++◌, ltb, leb, length, length-append, length-eq-sum_by, sum_by-perm, select, All,
  All-append, Bool-cases, Option-cases, arith,
}
use nestra.Prelude.Dict.{lookup, lookup-insert}
use nestra.Prelude.Sorting.{sort_by, sort_by-perm, All-sort_by}
use nestra.RateLimit.{
  SortedSetEntry, RateLimitStorage, remove_member, set_at, zadd, zremrangebyscore, zcount,
}
use nestra.RateLimit.SlidingWindow.{add_requests}

-- At most `m` entries, none later than `now`.
abbrev pub IsLimited : ℕ → ℕ → List SortedSetEntry → Type 0
IsLimited m now es = (length es ≤ m) × All (λ e. e.score ≤ now) es

remove_member-IsLimited :
    (m now : ℕ) (member : String) (es : List SortedSetEntry)
    → IsLimited m now es
    → IsLimited m now (remove_member member es)
unfolding remove_member
remove_member-IsLimited m now member [] h = h
remove_member-IsLimited zero now member (e ∷ es) (h, k) = absurd (omega arith)
remove_member-IsLimited (suc m) now member (e ∷ es) (h, k) =
    elim (Bool-cases (str_eq e.member member)) [
      | inl t ↦ rw (t, remove_member) (omega arith, k.1)
      | inr t ↦
          let (a, b) = remove_member-IsLimited m now member es (omega arith, k.1) in
          rw (t, remove_member) (omega arith, (k.0, b))
    ]

abbrev by_score : SortedSetEntry → SortedSetEntry → Bool
by_score a b = leb a.score b.score

-- One more entry, at the time `now`.
added-IsLimited :
    (m now : ℕ) (member : String) (es : List SortedSetEntry)
    → IsLimited m now es
    → IsLimited
        (m + 1)
        now
        (sort_by by_score (remove_member member es ++ record { score = now; member = member } ∷ []))
added-IsLimited m now member es h =
    let (a, b) = remove_member-IsLimited m now member es h in
    let entry : SortedSetEntry = record { score = now; member = member } in
    let kept = remove_member member es in
    (
      omega (
        arith,
        length-eq-sum_by (sort_by by_score (kept ++ entry ∷ [])),
        sum_by-perm (λ (_ : SortedSetEntry). 1) (sort_by-perm by_score (kept ++ entry ∷ [])),
        length-eq-sum_by (kept ++ entry ∷ []),
        length-append kept (entry ∷ []),
      ),
      All-sort_by by_score (λ e. e.score ≤ now) (kept ++ entry ∷ [])
          (All-append (λ e. e.score ≤ now) kept (entry ∷ []) b (omega arith, tt)),
    )

zadd_self :
    (s : RateLimitStorage) (key member : String) (now : ℕ)
    → set_at (zadd s key now member) key
      ≡ sort_by by_score
          (remove_member member (set_at s key) ++ record { score = now; member = member } ∷ [])
unfolding zadd
zadd_self s key member now =
    rw
      (
        lookup-insert key key
            (sort_by by_score
              (remove_member member (set_at s key) ++ record { score = now; member = member } ∷ []))
            s.sorted_sets,
        (eq_iff key key).1 refl,
      )
      refl

zadd_other :
    (s : RateLimitStorage) (key k member : String) (now : ℕ)
    → str_eq key k ≡ false
    → set_at (zadd s key now member) k ≡ set_at s k
unfolding zadd
zadd_other s key k member now h =
    rw
      (
        lookup-insert key k
            (sort_by by_score
              (remove_member member (set_at s key) ++ record { score = now; member = member } ∷ []))
            s.sorted_sets,
        h,
      )
      refl

pub add_requests_self :
    (s : RateLimitStorage) (key : String) (now m i n : ℕ) (ids : ℕ → String)
    → IsLimited m now (set_at s key)
    → IsLimited (m + n) now (set_at (add_requests s key now ids i n) key)
unfolding add_requests
add_requests_self s key now m i zero ids h = (omega (arith, h.0), h.1)
add_requests_self s key now m i (suc n) ids h =
    let one : IsLimited (m + 1) now (set_at (zadd s key now (ids i)) key) =
      rw (zadd_self s key (ids i) now) (added-IsLimited m now (ids i) (set_at s key) h) in
    let (a, b) = add_requests_self (zadd s key now (ids i)) key now (m + 1) (i + 1) n ids one in
    (omega arith, b)

pub add_requests_other :
    (s : RateLimitStorage) (key k : String) (now i n : ℕ) (ids : ℕ → String)
    → str_eq key k ≡ false
    → set_at (add_requests s key now ids i n) k ≡ set_at s k
unfolding add_requests
add_requests_other s key k now i zero ids h = refl
add_requests_other s key k now i (suc n) ids h =
    add_requests_other (zadd s key now (ids i)) key k now (i + 1) n ids h
    ∙ zadd_other s key k (ids i) now h

-- The entries that the removal of the expired ones keeps.
abbrev pub fresh : ℕ → List SortedSetEntry → List SortedSetEntry
fresh start = select (λ e. ltb e.score 0 || ltb start e.score)

pub length-select :
    (p : SortedSetEntry → Bool) (es : List SortedSetEntry) → length (select p es) ≤ length es
length-select p [] = omega arith
length-select p (e ∷ es) = ground (arith, length-select p es)

pub zremrangebyscore_self :
    (s : RateLimitStorage) (key : String) (start : ℕ)
    → set_at (zremrangebyscore s key 0 start).1 key ≡ fresh start (set_at s key)
unfolding zremrangebyscore
zremrangebyscore_self s key start = elim (Option-cases (lookup key s.sorted_sets)) [
  | inl e ↦ rw (e, zremrangebyscore) (rw e refl)
  | inr (es, e) ↦
      rw (e, zremrangebyscore)
        (rw (lookup-insert key key (fresh start es) s.sorted_sets, (eq_iff key key).1 refl) refl)
]

pub zremrangebyscore_other :
    (s : RateLimitStorage) (key k : String) (start : ℕ)
    → str_eq key k ≡ false
    → set_at (zremrangebyscore s key 0 start).1 k ≡ set_at s k
unfolding zremrangebyscore
zremrangebyscore_other s key k start h = elim (Option-cases (lookup key s.sorted_sets)) [
  | inl e ↦ rw (e, zremrangebyscore) refl
  | inr (es, e) ↦
      rw (e, zremrangebyscore) (rw (lookup-insert key k (fresh start es) s.sorted_sets, h) refl)
]

-- Every fresh entry that is not later than `now` is counted.
pub count_fresh :
    (start now : ℕ) (es : List SortedSetEntry)
    → All (λ e. e.score ≤ now) es
    → length (select (λ e. leb start e.score && leb e.score now) (fresh start es))
      ≡ length (fresh start es)
count_fresh start now [] h = refl
count_fresh start now (e ∷ es) h = elim (Bool-cases (ltb e.score 0 || ltb start e.score)) [
  | inr t ↦ rw t (count_fresh start now es h.1)
  | inl t ↦
      let hit : (leb start e.score && leb e.score now) ≡ true = ground (arith, h.0) in
      rw (t, hit) (ap suc (count_fresh start now es h.1))
]

pub zcount-eq :
    (s : RateLimitStorage) (key : String) (lo hi : ℕ)
    → zcount s key lo hi ≡ length (select (λ e. leb lo e.score && leb e.score hi) (set_at s key))
unfolding zcount
zcount-eq s key lo hi = elim (Option-cases (lookup key s.sorted_sets)) [
  | inl e ↦ rw (e, zcount) refl
  | inr (es, e) ↦ rw (e, zcount) refl
]
