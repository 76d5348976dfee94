-- ===== src/Resilience/Upstream.antt =====
-- `resolveTrustWithResilience`. Waiting and logging are left out.
use infopunks_trust_layer_ag.Base.{
  ℕ, suc, min, max, String, Bool, true, false, Option, none, some, List, [], ◌∷◌, or_else,
  get_or_else, if◌then◌else◌,
}
use infopunks_trust_layer_ag.Base.Json.{null}
use infopunks_trust_layer_ag.Resilience.Cache.{
  TrustResponse, CacheRow, get_cached_trust, set_cached_trust,
}

unfoldable pub normalize_verified : TrustResponse → String → TrustResponse
normalize_verified result subject = record result {
  subject_id = or_else result.subject_id (some subject);
  mode = some "verified";
  provisional = some false;
  confidence = some (max 8000 (min (get_or_else result.confidence 8000) 10000));
}

unfoldable pub normalize_degraded_from_cache : TrustResponse → String → String → TrustResponse
normalize_degraded_from_cache cached reason subject =
    let score = get_or_else (or_else cached.score cached.trust_score) 20 in
    record cached {
      subject_id = or_else cached.subject_id (some subject);
      score = some score;
      trust_score = some score;
      trust_tier = or_else cached.trust_tier (some "unverified");
      provisional = some true;
      mode = some "degraded";
      confidence = some (min (get_or_else cached.confidence 6000) 6000);
      reason = some reason;
    }

unfoldable pub safe_default_fallback : String → TrustResponse
safe_default_fallback subject = record {
  subject_id = some subject;
  score = some 20;
  trust_score = some 20;
  trust_tier = some "unverified";
  band = some "quarantined";
  decision = some "restrict";
  reason_codes = some ("SAFE_DEFAULT_FALLBACK" ∷ []);
  provisional = some true;
  mode = some "degraded";
  confidence = some 2500;
  reason = some "SAFE_DEFAULT_FALLBACK";
  other_fields = null;
}

unfoldable pub fallback : String → List CacheRow → TrustResponse
fallback subject cache = elim (get_cached_trust subject cache) [
  | none ↦ safe_default_fallback subject
  | some cached ↦ normalize_degraded_from_cache cached "CACHED_TRUST_FALLBACK" subject
]

-- By the attempt: the upstream's answer, if it gives one, whether the cache takes the write, and the
-- time of that.
pub record Upstream : Type 0 where
  pub answers : ℕ → Option TrustResponse
  pub stores : ℕ → Bool
  pub clock : ℕ → ℕ

-- The loop's end: how many attempts there were, and the verified answer if one succeeded.
pub record Tried : Type 0 where
  pub attempts : ℕ
  pub verified : Option TrustResponse
  pub cache : List CacheRow

module _ (env : Upstream) (subject : String) where
  -- The loop over the delays. An answer that the cache does not take is a failed attempt.
  unfoldable pub attempt_loop : ℕ → List ℕ → List CacheRow → Tried
  attempt_loop k [] cache = record { attempts = k; verified = none; cache = cache }
  attempt_loop k (delay ∷ delays) cache =
      let failed = attempt_loop (suc k) delays cache in
      elim (env.answers k) [
        | none ↦ failed
        | some result ↦
            let verified = normalize_verified result subject in
            if env.stores k
            then record {
              attempts = suc k;
              verified = some verified;
              cache = set_cached_trust subject verified (env.clock k) cache;
            }
            else failed
      ]

  -- The answer, the attempts made, and the cache then.
  unfoldable pub resolve_trust_with_resilience :
      List ℕ → List CacheRow → TrustResponse × ℕ × List CacheRow
  unfolding attempt_loop fallback
  resolve_trust_with_resilience delays cache =
      let tried = attempt_loop 0 delays cache in
      elim tried.verified [
        | some verified ↦ (verified, tried.attempts, tried.cache)
        | none ↦ (fallback subject tried.cache, tried.attempts, tried.cache)
      ]
