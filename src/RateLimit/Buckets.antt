-- ===== src/RateLimit/Buckets.antt =====
-- Buckets of hits: one to a hashed key and a minute.
use infopunks_trust_layer_ag.Base.{
  ℕ, suc, ◌+◌, ◌≤◌, ◌≡◌, refl, String, Bool, not, ◌&&◌, List, [], ◌∷◌, arith, ◌==◌, eq_iff, ltb,
  eqb, length, filter, if◌then◌else◌,
}

-- The entry `${normalized}:${minute}` of the map `calls` with its value `{ minute, count }`, and a
-- row of `adapter_rate_limit_counters`.
pub record Bucket : Type 0 where
  pub key_hash : String
  pub bucket_minute : ℕ
  pub count : ℕ

abbrev pub is_bucket : String → ℕ → Bucket → Bool
is_bucket hash minute b = b.key_hash == hash && eqb b.bucket_minute minute

-- `existing?.count ?? 0`
unfoldable pub count_of : String → ℕ → List Bucket → ℕ
count_of hash minute [] = 0
count_of hash minute (b ∷ bs) = if is_bucket hash minute b then b.count else count_of hash minute bs

-- `calls.set(bucketKey, { minute, count })`, and the upsert of a counter.
unfoldable pub bump : String → ℕ → List Bucket → List Bucket
bump hash minute [] = record { key_hash = hash; bucket_minute = minute; count = 1 } ∷ []
bump hash minute (b ∷ bs) =
    if is_bucket hash minute b
    then record b { count = b.count + 1 } ∷ bs
    else b ∷ bump hash minute bs

-- A bucket goes when its minute is before the given one.
abbrev pub keep_from : ℕ → Bucket → Bool
keep_from minute b = not (ltb b.bucket_minute minute)

pub count_of-bump :
    (hash other : String) (minute at : ℕ) (bs : List Bucket)
    → count_of hash minute (bump other at bs) ≡ (
        if other == hash && eqb at minute
        then suc (count_of hash minute bs)
        else count_of hash minute bs)
unfolding count_of bump
count_of-bump hash other minute at [] = ground arith
count_of-bump hash other minute at (b ∷ bs) = ground (
  arith,
  eq_iff other hash,
  eq_iff b.key_hash other,
  eq_iff b.key_hash hash,
  count_of-bump hash other minute at bs,
)

pub count_of-filter :
    (hash : String) (minute from : ℕ) (bs : List Bucket)
    → from ≤ minute
    → count_of hash minute (filter (keep_from from) bs) ≡ count_of hash minute bs
unfolding count_of
count_of-filter hash minute from [] h = refl
count_of-filter hash minute from (b ∷ bs) h = ground (arith, count_of-filter hash minute from bs h)

pub length-bump :
    (hash : String) (minute : ℕ) (bs : List Bucket) → length (bump hash minute bs) ≤ suc (length bs)
unfolding bump
length-bump hash minute [] = omega arith
length-bump hash minute (b ∷ bs) = ground (arith, length-bump hash minute bs)
