-- ===== src/Resilience/Tests.antt =====
-- Witnesses for the resolution of trust: an upstream that answers at the second attempt, and one
-- that is down.
use infopunks_trust_layer_ag.Base.{
  ℕ, ◌*◌, ◌≡◌, refl, inl, true, none, some, List, [], ◌∷◌, eqb, length, if◌then◌else◌,
}
use infopunks_trust_layer_ag.Base.Json.{null}
use infopunks_trust_layer_ag.Resilience.Cache.{TrustResponse, set_cached_trust}
use infopunks_trust_layer_ag.Resilience.Upstream.{
  normalize_verified, normalize_degraded_from_cache, Upstream, attempt_loop, fallback,
  resolve_trust_with_resilience,
}
use infopunks_trust_layer_ag.Resilience.Outcome.{Resolves, resolve_trust_with_resilience-Resolves}
use infopunks_trust_layer_ag.Resilience.Fallback.{resolve_trust_with_resilience-cached}

abbrev trusted : TrustResponse
trusted = record {
  subject_id = none;
  score = some 77;
  trust_score = none;
  trust_tier = none;
  band = some "preferred";
  decision = some "allow";
  reason_codes = none;
  provisional = none;
  mode = none;
  confidence = some 9100;
  reason = none;
  other_fields = null;
}

abbrev flaky : Upstream
flaky = record {
  answers = λ k. if eqb k 1 then some trusted else none;
  stores = λ k. true;
  clock = λ k. 1000 * k;
}

abbrev down : Upstream
down = record { answers = λ k. none; stores = λ k. true; clock = λ k. 0 }

abbrev delays : List ℕ
delays = 250 ∷ 500 ∷ 1000 ∷ []

second_attempt : (resolve_trust_with_resilience flaky "agent_1" delays []).1 ≡ 2
unfolding resolve_trust_with_resilience attempt_loop fallback normalize_verified set_cached_trust
second_attempt = refl

resolve_trust_with_resilience-Resolves_example :
    Resolves flaky "agent_1"
      (length delays)
      []
      (resolve_trust_with_resilience flaky "agent_1" delays [])
resolve_trust_with_resilience-Resolves_example =
    resolve_trust_with_resilience-Resolves flaky "agent_1" delays []

resolve_trust_with_resilience-cached_example :
    (resolve_trust_with_resilience down "agent_1" delays
      (resolve_trust_with_resilience flaky "agent_1" delays []).2).0
    ≡ normalize_degraded_from_cache
        (resolve_trust_with_resilience flaky "agent_1" delays []).0
        "CACHED_TRUST_FALLBACK"
        "agent_1"
unfolding resolve_trust_with_resilience attempt_loop fallback normalize_verified set_cached_trust
resolve_trust_with_resilience-cached_example =
    resolve_trust_with_resilience-cached flaky down "agent_1" delays delays [] refl refl
      (λ j below. inl refl)
