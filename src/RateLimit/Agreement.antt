-- ===== src/RateLimit/Agreement.antt =====
-- The two strategies against each other.
use infopunks_trust_layer_ag.Base.{ℕ, ◌+◌, ◌≤◌, ◌≡◌, String, List, [], ◌∷◌, arith, All, length}
use infopunks_trust_layer_ag.RateLimit.Buckets.{count_of}
use infopunks_trust_layer_ag.RateLimit.Strategies.{Memory, Counters, memory_hit, postgres_hit}
use infopunks_trust_layer_ag.RateLimit.Counts.{
  Hit, memory_run, postgres_run, memory_hit-counts, postgres_hit-counts,
}

All-recent :
    (minute : ℕ) (hits : List Hit) → All (λ h. h.1 ≤ minute) hits → All (λ h. h.1 ≤ minute + 5) hits
All-recent minute [] early = tt
All-recent minute (h ∷ hs) early = (omega (arith, early.0), All-recent minute hs early.1)

-- After the same hits, the in-memory strategy and the database strategy answer a hit alike, if they
-- counted as many hits of its key and minute before, no hit of the sequence is for a later minute,
-- and the buckets kept and the hits together are within the bound of the first.
pub memory_hit-postgres_hit :
    (sha256 : String → String) (max : ℕ) (hits : List Hit) (s : Memory) (t : Counters)
    (key : String) (minute : ℕ)
    → All (λ h. h.1 ≤ minute) hits
    → length s.calls + length hits ≤ max
    → count_of (sha256 key) minute s.calls ≡ count_of (sha256 key) minute t.counters
    → (memory_hit sha256 max key minute (memory_run sha256 max hits s)).0
      ≡ (postgres_hit sha256 key minute (postgres_run sha256 hits t)).0
memory_hit-postgres_hit sha256 max hits s t key minute early small same = omega (
  arith,
  same,
  memory_hit-counts sha256 max hits s key minute early small,
  postgres_hit-counts sha256 hits t key minute (All-recent minute hits early),
)
