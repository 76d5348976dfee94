-- ===== src/RateLimit/Limiter.antt =====
-- `AdapterRateLimiter` over the in-memory strategy.
use infopunks_trust_layer_ag.Base.{
  ℕ, suc, ◌+◌, ◌-◌, ◌≤◌, ◌≡◌, ◌∙◌, eq_iff, String, Bool, true, min, List, [], ◌∷◌, arith, All, leb,
  length, count_rows, if◌then◌else◌,
}
use infopunks_trust_layer_ag.RateLimit.Buckets.{count_of}
use infopunks_trust_layer_ag.RateLimit.Strategies.{Memory, memory_hit}
use infopunks_trust_layer_ag.RateLimit.Counts.{
  Hit, hits_bucket, memory_hit-count_of, memory_hit-length-le, memory_hit-answer,
}

module _ (sha256 : String → String) (max : ℕ) where
  -- Whether the hit is let through: it is not when `ENTITLEMENT_REQUIRED` is thrown.
  unfoldable pub limiter_hit : ℕ → String → ℕ → Memory → Bool × Memory
  limiter_hit limit_per_minute key minute s =
      let (count, s') = memory_hit sha256 max key minute s in (leb count limit_per_minute, s')

  -- The hits of a bucket that are let through.
  unfoldable pub admitted : ℕ → String → ℕ → List Hit → Memory → ℕ
  admitted limit key minute [] s = 0
  admitted limit key minute (h ∷ hs) s =
      let (ok, s') = limiter_hit limit h.0 h.1 s in
      (if hits_bucket sha256 key minute h then if ok then 1 else 0 else 0)
      + admitted limit key minute hs s'

  own_hit :
      (h : Hit) (s : Memory) (key : String) (minute : ℕ)
      → length s.calls ≤ max
      → hits_bucket sha256 key minute h ≡ true
      → (memory_hit sha256 max h.0 h.1 s).0 ≡ suc (count_of (sha256 key) minute s.calls)
  own_hit h s key minute small own =
      memory_hit-answer sha256 max h.1 h.0 s small
      ∙ cc ((eq_iff (sha256 h.0) (sha256 key)).0 (ground arith), same_minute)
    where
      same_minute : h.1 ≡ minute
      same_minute = ground arith

  -- Of the hits of one hashed key in a minute, the limiter over the in-memory strategy lets through
  -- as many as there are or as the limit leaves after those counted before, whichever is less, if
  -- no hit in the sequence is for a later minute and the buckets kept and the hits together are
  -- within the strategy's bound.
  pub admitted-min :
      (limit : ℕ) (hits : List Hit) (s : Memory) (key : String) (minute : ℕ)
      → All (λ h. h.1 ≤ minute) hits
      → length s.calls + length hits ≤ max
      → admitted limit key minute hits s
        ≡ min
            (count_rows (hits_bucket sha256 key minute) hits)
            (limit - count_of (sha256 key) minute s.calls)
  unfolding admitted limiter_hit
  admitted-min limit [] s key minute early small = omega arith
  admitted-min limit (h ∷ hs) s key minute early small = ground (
    arith,
    own_hit h s key minute (omega arith),
    memory_hit-count_of sha256 max h s key minute early.0 (omega arith),
    admitted-min limit hs (memory_hit sha256 max h.0 h.1 s).1 key minute early.1
        (omega (arith, memory_hit-length-le sha256 max h.1 h.0 s)),
  )
