-- ===== src/RateLimit/Strategies.antt =====
-- `MemoryRateLimitStrategy` and `PostgresRateLimitStrategy`. The digest of `normalizeKey` is a
-- parameter.
use infopunks_trust_layer_ag.Base.{
  ℕ, ◌+◌, ◌-◌, String, Bool, false, ◌&&◌, Option, none, some, List, [], ◌∷◌, leb, eqb, length,
  filter, if◌then◌else◌,
}
use infopunks_trust_layer_ag.RateLimit.Buckets.{Bucket, keep_from, count_of, bump}
use Prim.Native.Nat.{◌%◌}

pub record Memory : Type 0 where
  pub calls : List Bucket
  pub last_minute : Option ℕ

abbrev pub is_last : Option ℕ → ℕ → Bool
is_last none minute = false
is_last (some m) minute = eqb m minute

-- The loop that deletes the oldest buckets until the map is small enough.
unfoldable pub evict : ℕ → List Bucket → List Bucket
evict max_tracked_keys [] = []
evict max_tracked_keys (b ∷ bs) =
    let rest = evict max_tracked_keys bs in
    if leb (length (b ∷ bs)) max_tracked_keys then b ∷ bs else rest

unfoldable pub prune : ℕ → ℕ → Memory → Memory
unfolding evict
prune max_tracked_keys minute s =
    if is_last s.last_minute minute && leb (length s.calls) max_tracked_keys then s else record {
      calls = evict max_tracked_keys (filter (keep_from minute) s.calls);
      last_minute = some minute;
    }

-- The table of counters, and `cleanupModulo`.
pub record Counters : Type 0 where
  pub counters : List Bucket
  pub cleanup_modulo : ℕ

module _ (sha256 : String → String) where
  unfoldable pub memory_hit : ℕ → String → ℕ → Memory → ℕ × Memory
  unfolding prune
  memory_hit max_tracked_keys key minute s =
      let s' = prune max_tracked_keys minute s in
      (
        count_of (sha256 key) minute s'.calls + 1,
        record s' { calls = bump (sha256 key) minute s'.calls },
      )

  -- The row that the upsert returns holds the count after it. The cleanup follows.
  unfoldable pub postgres_hit : String → ℕ → Counters → ℕ × Counters
  postgres_hit key minute s =
      let upserted = bump (sha256 key) minute s.counters in
      let modulo = (s.cleanup_modulo + 1) % 50 in
      (
        count_of (sha256 key) minute upserted,
        record {
          counters = if eqb modulo 0 then filter (keep_from (minute - 5)) upserted else upserted;
          cleanup_modulo = modulo;
        },
      )
