-- ===== src/RateLimit/Tests.antt =====
-- Witnesses for the rate limits: two keys within one minute, with the identity for the digest.
use infopunks_trust_layer_ag.Base.{
  refl, suc, ◌-◌, ◌≤◌, ◌≡◌, String, none, List, [], ◌∷◌, min, arith, length, count_rows,
}
use infopunks_trust_layer_ag.RateLimit.Buckets.{count_of}
use infopunks_trust_layer_ag.RateLimit.Strategies.{Memory, Counters, memory_hit, postgres_hit}
use infopunks_trust_layer_ag.RateLimit.Counts.{
  Hit, hits_bucket, memory_run, postgres_run, memory_hit-length,
}
use infopunks_trust_layer_ag.RateLimit.Agreement.{memory_hit-postgres_hit}
use infopunks_trust_layer_ag.RateLimit.Limiter.{admitted, admitted-min}

abbrev digest : String → String
digest key = key

abbrev fresh : Memory
fresh = record { calls = []; last_minute = none }

abbrev empty_table : Counters
empty_table = record { counters = []; cleanup_modulo = 0 }

abbrev hits : List Hit
hits = ("a", 7) ∷ ("b", 6) ∷ ("a", 7) ∷ ("a", 7) ∷ []

memory_hit-length_example :
    length (memory_hit digest 1 "a" 8 (memory_run digest 1 hits fresh)).1.calls ≤ suc 1
memory_hit-length_example = memory_hit-length digest 1 8 "a" (memory_run digest 1 hits fresh)

admitted-min_example :
    admitted digest 9 2 "a" 7 hits fresh
    ≡ min (count_rows (hits_bucket digest "a" 7) hits) (2 - count_of "a" 7 [])
admitted-min_example =
    admitted-min digest 9 2 hits fresh "a" 7
      (omega arith, (omega arith, (omega arith, (omega arith, tt)))) (omega arith)

memory_hit-postgres_hit_example :
    (memory_hit digest 9 "a" 7 (memory_run digest 9 hits fresh)).0
    ≡ (postgres_hit digest "a" 7 (postgres_run digest hits empty_table)).0
memory_hit-postgres_hit_example =
    memory_hit-postgres_hit digest 9 hits fresh empty_table "a" 7
      (omega arith, (omega arith, (omega arith, (omega arith, tt)))) (omega arith) refl
