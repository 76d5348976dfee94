-- ===== src/RateLimit/Counts.antt =====
-- The counts of both strategies over a sequence of hits.
use infopunks_trust_layer_ag.Base.{
  ℕ, suc, ◌+◌, ◌-◌, ◌≤◌, ◌≡◌, refl, String, Bool, ◌&&◌, List, [], ◌∷◌, arith, ◌==◌, eq_iff, All,
  inl, inr, Bool-cases, leb, eqb, length, filter, length-filter-le, count_rows, if◌then◌else◌,
}
use infopunks_trust_layer_ag.RateLimit.Buckets.{
  Bucket, keep_from, count_of, bump, count_of-bump, count_of-filter, length-bump,
}
use infopunks_trust_layer_ag.RateLimit.Strategies.{
  Memory, Counters, is_last, evict, prune, memory_hit, postgres_hit,
}

-- The key and the minute of a hit.
abbrev pub Hit : Type 0
Hit = String × ℕ

evict-length : (max : ℕ) (bs : List Bucket) → length (evict max bs) ≤ max
unfolding evict
evict-length max [] = omega arith
evict-length max (b ∷ bs) = ground (arith, evict-length max bs)

evict_lem : (max : ℕ) (bs : List Bucket) → length bs ≤ max → evict max bs ≡ bs
unfolding evict
evict_lem max [] h = refl
evict_lem max (b ∷ bs) h = ground arith

prune-length : (max minute : ℕ) (s : Memory) → length (prune max minute s).calls ≤ max
unfolding prune
prune-length max minute s = ground (arith, evict-length max (filter (keep_from minute) s.calls))

prune-count_of :
    (max minute at : ℕ) (hash : String) (s : Memory)
    → length s.calls ≤ max
    → minute ≤ at
    → count_of hash at (prune max minute s).calls ≡ count_of hash at s.calls
unfolding prune
prune-count_of max minute at hash s small early =
    elim (Bool-cases (is_last s.last_minute minute && leb (length s.calls) max)) [
      | inl same ↦ rw (same, prune)
      | inr due ↦
          rw (due, prune)
            (rw
              (evict_lem max (filter (keep_from minute) s.calls)
                (ground (arith, length-filter-le (keep_from minute) s.calls)))
              (count_of-filter hash at minute s.calls early))
    ]

evict-length-le : (max : ℕ) (bs : List Bucket) → length (evict max bs) ≤ length bs
unfolding evict
evict-length-le max [] = omega arith
evict-length-le max (b ∷ bs) = ground (arith, evict-length-le max bs)

prune-length-le : (max minute : ℕ) (s : Memory) → length (prune max minute s).calls ≤ length s.calls
unfolding prune
prune-length-le max minute s = ground (
  arith,
  evict-length-le max (filter (keep_from minute) s.calls),
  length-filter-le (keep_from minute) s.calls,
)

module _ (sha256 : String → String) where
  -- A hit of the same bucket.
  abbrev pub hits_bucket : String → ℕ → Hit → Bool
  hits_bucket key minute h = sha256 h.0 == sha256 key && eqb h.1 minute

  unfoldable pub memory_run : ℕ → List Hit → Memory → Memory
  memory_run max [] s = s
  memory_run max (h ∷ hs) s = memory_run max hs (memory_hit sha256 max h.0 h.1 s).1

  unfoldable pub postgres_run : List Hit → Counters → Counters
  postgres_run [] s = s
  postgres_run (h ∷ hs) s = postgres_run hs (postgres_hit sha256 h.0 h.1 s).1

  -- After any hit, from any state, the in-memory strategy keeps at most one bucket more than its
  -- bound.
  pub memory_hit-length :
      (max minute : ℕ) (key : String) (s : Memory)
      → length (memory_hit sha256 max key minute s).1.calls ≤ suc max
  unfolding memory_hit
  memory_hit-length max minute key s =
      omega (
        arith,
        prune-length max minute s,
        length-bump (sha256 key) minute (prune max minute s).calls,
      )

  pub memory_hit-length-le :
      (max minute : ℕ) (key : String) (s : Memory)
      → length (memory_hit sha256 max key minute s).1.calls ≤ suc (length s.calls)
  unfolding memory_hit
  memory_hit-length-le max minute key s = omega (
    arith,
    prune-length-le max minute s,
    length-bump (sha256 key) minute (prune max minute s).calls,
  )

  pub memory_hit-count_of :
      (max : ℕ) (h : Hit) (s : Memory) (key : String) (minute : ℕ)
      → h.1 ≤ minute
      → length s.calls ≤ max
      → count_of (sha256 key) minute (memory_hit sha256 max h.0 h.1 s).1.calls
        ≡ (if hits_bucket key minute h then 1 else 0) + count_of (sha256 key) minute s.calls
  unfolding memory_hit
  memory_hit-count_of max h s key minute early small = ground (
    arith,
    count_of-bump (sha256 key) (sha256 h.0) minute h.1 (prune max h.1 s).calls,
    prune-count_of max h.1 minute (sha256 key) s small early,
  )

  memory_run-count_of :
      (max : ℕ) (hits : List Hit) (s : Memory) (key : String) (minute : ℕ)
      → All (λ h. h.1 ≤ minute) hits
      → length s.calls + length hits ≤ max
      → count_of (sha256 key) minute (memory_run max hits s).calls
        ≡ count_rows (hits_bucket key minute) hits + count_of (sha256 key) minute s.calls
  unfolding memory_run
  memory_run-count_of max [] s key minute early small = omega arith
  memory_run-count_of max (h ∷ hs) s key minute early small =
      let s' = (memory_hit sha256 max h.0 h.1 s).1 in
      omega (
        arith,
        memory_hit-length-le max h.1 h.0 s,
        memory_hit-count_of max h s key minute early.0 (omega arith),
        memory_run-count_of max hs s' key minute early.1
            (omega (arith, memory_hit-length-le max h.1 h.0 s)),
      )

  memory_run-length :
      (max : ℕ) (hits : List Hit) (s : Memory)
      → length (memory_run max hits s).calls ≤ length hits + length s.calls
  unfolding memory_run
  memory_run-length max [] s = omega arith
  memory_run-length max (h ∷ hs) s = omega (
    arith,
    memory_hit-length-le max h.1 h.0 s,
    memory_run-length max hs (memory_hit sha256 max h.0 h.1 s).1,
  )

  -- The answer to a hit is the count of its bucket after it.
  pub memory_hit-answer :
      (max minute : ℕ) (key : String) (s : Memory)
      → length s.calls ≤ max
      → (memory_hit sha256 max key minute s).0 ≡ suc (count_of (sha256 key) minute s.calls)
  unfolding memory_hit
  memory_hit-answer max minute key s small =
      omega (arith, prune-count_of max minute minute (sha256 key) s small (omega arith))

  -- The in-memory strategy answers a hit with the number of hits of that hashed key in that minute,
  -- this one and those counted before it, if no earlier hit of the sequence was for a later minute
  -- and the buckets kept and the hits together are within its bound.
  pub memory_hit-counts :
      (max : ℕ) (hits : List Hit) (s : Memory) (key : String) (minute : ℕ)
      → All (λ h. h.1 ≤ minute) hits
      → length s.calls + length hits ≤ max
      → (memory_hit sha256 max key minute (memory_run max hits s)).0
        ≡ suc (count_rows (hits_bucket key minute) hits + count_of (sha256 key) minute s.calls)
  memory_hit-counts max hits s key minute early small = omega (
    arith,
    memory_hit-answer max minute key (memory_run max hits s)
        (omega (arith, memory_run-length max hits s)),
    memory_run-count_of max hits s key minute early small,
  )

  postgres_hit-count_of :
      (h : Hit) (s : Counters) (key : String) (minute : ℕ)
      → h.1 ≤ minute + 5
      → count_of (sha256 key) minute (postgres_hit sha256 h.0 h.1 s).1.counters
        ≡ (if hits_bucket key minute h then 1 else 0) + count_of (sha256 key) minute s.counters
  unfolding postgres_hit
  postgres_hit-count_of h s key minute recent = ground (
    arith,
    count_of-bump (sha256 key) (sha256 h.0) minute h.1 s.counters,
    count_of-filter (sha256 key) minute (h.1 - 5) (bump (sha256 h.0) h.1 s.counters) (omega arith),
  )

  postgres_run-count_of :
      (hits : List Hit) (s : Counters) (key : String) (minute : ℕ)
      → All (λ h. h.1 ≤ minute + 5) hits
      → count_of (sha256 key) minute (postgres_run hits s).counters
        ≡ count_rows (hits_bucket key minute) hits + count_of (sha256 key) minute s.counters
  unfolding postgres_run
  postgres_run-count_of [] s key minute recent = omega arith
  postgres_run-count_of (h ∷ hs) s key minute recent = omega (
    arith,
    postgres_hit-count_of h s key minute recent.0,
    postgres_run-count_of hs (postgres_hit sha256 h.0 h.1 s).1 key minute recent.1,
  )

  -- The database strategy answers a hit with the number of hits of that hashed key in that minute,
  -- this one and those counted before it, if no earlier hit of the sequence was more than five
  -- minutes later.
  pub postgres_hit-counts :
      (hits : List Hit) (s : Counters) (key : String) (minute : ℕ)
      → All (λ h. h.1 ≤ minute + 5) hits
      → (postgres_hit sha256 key minute (postgres_run hits s)).0
        ≡ suc (count_rows (hits_bucket key minute) hits + count_of (sha256 key) minute s.counters)
  unfolding postgres_hit
  postgres_hit-counts hits s key minute recent = ground (
    arith,
    (eq_iff (sha256 key) (sha256 key)).1 refl,
    count_of-bump (sha256 key) (sha256 key) minute minute (postgres_run hits s).counters,
    postgres_run-count_of hits s key minute recent,
  )
