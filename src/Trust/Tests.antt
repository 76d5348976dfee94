-- ===== src/Trust/Tests.antt =====
-- Witnesses for the trust engine: a subject that gets worse.
use infopunks_trust_layer_ag.Base.{
  to_lower_case, ◌≤◌, ◌≡◌, refl, ◌⊎◌, true, false, none, some, [], ◌∷◌, arith,
}
use infopunks_trust_layer_ag.Trust.Band.{
  RiskRules, allowed, preferred, restricted, high_risk, deny, restrict, band_decision,
  band_at_least, below_minimum, mapping, watch, quarantined, score_band, default_bands,
}
use infopunks_trust_layer_ag.Trust.Policy.{
  degrading_state, risky_state, quarantined_state, rate_limit, quarantine, TrustVector, Thresholds,
  derive_trust_state, derive_policy, derive_action, policy_reason_codes, unique_onto, summary,
  spaced_out, join_codes,
}
use infopunks_trust_layer_ag.Trust.Event.{
  Resolution, pos, collapse, TrustEvent, is_low_band, compute_trust_event,
}
use infopunks_trust_layer_ag.Trust.Safety.{IsSafe, derive_policy-IsSafe}
use infopunks_trust_layer_ag.Trust.Severity.{severity_rank, derive_trust_state-severity}
use infopunks_trust_layer_ag.Trust.Alerts.{
  Carries, is_quarantine_alert, is_policy_alert, compute_trust_event-quarantine,
  compute_trust_event-action,
}
use infopunks_trust_layer_ag.Trust.Unchanged.{compute_trust_event-unchanged}

abbrev healthy : TrustVector
healthy = record {
  execution_reliability = 80;
  economic_integrity = 70;
  dependency_risk = 20;
  adversarial_risk = 30;
  evidence_freshness = 60;
}

abbrev attacked : TrustVector
attacked = record {
  execution_reliability = 45;
  economic_integrity = 50;
  dependency_risk = 20;
  adversarial_risk = 75;
  evidence_freshness = 30;
}

abbrev thresholds : Thresholds
thresholds = record { min_verified_score = 80; risky_threshold = 50; quarantine_threshold = 25 }

bands_test : score_band 59 default_bands ≡ watch
unfolding score_band
bands_test = refl

summary_test :
    (derive_policy healthy degrading_state []).human_readable_summary
    ≡ "State DEGRADING: rate limit due to baseline policy."
unfolding derive_policy derive_action policy_reason_codes unique_onto summary spaced_out join_codes
    to_lower_case
summary_test = refl

derive_policy-IsSafe_example :
    IsSafe attacked ("a" ∷ "a" ∷ []) (derive_policy attacked degrading_state ("a" ∷ "a" ∷ []))
derive_policy-IsSafe_example = derive_policy-IsSafe attacked degrading_state ("a" ∷ "a" ∷ [])

derive_trust_state-severity_example :
    severity_rank (derive_trust_state healthy 70 thresholds 0)
    ≤ severity_rank (derive_trust_state attacked 60 thresholds 0)
derive_trust_state-severity_example =
    derive_trust_state-severity healthy attacked 70 60 0 0 thresholds (record {
      score_le = omega arith;
      risk_le = omega arith;
      freshness_le = omega arith;
      reliability_le = omega arith;
      signals_le = omega arith;
    })

abbrev before : Resolution
before = record {
  score = 45;
  band = watch;
  trust_state = some risky_state;
  action = some rate_limit;
  routing_priority = some 60;
  reason_codes = [];
}

abbrev after : Resolution
after = record {
  score = 10;
  band = quarantined;
  trust_state = some quarantined_state;
  action = some quarantine;
  routing_priority = some 20;
  reason_codes = [];
}

compute_trust_event-quarantine_example :
    Carries is_quarantine_alert (compute_trust_event (some before) after)
compute_trust_event-quarantine_example =
    compute_trust_event-quarantine before after risky_state refl (λ e. cc) refl

compute_trust_event-action_example :
    Carries is_policy_alert (compute_trust_event (some before) after)
compute_trust_event-action_example =
    compute_trust_event-action before after rate_limit quarantine refl refl (λ e. cc)

compute_trust_event-unchanged_example :
    ((is_low_band quarantined ≡ false) × (compute_trust_event (some after) after ≡ none))
    ⊎ ((is_low_band quarantined ≡ true)
        × ((e : TrustEvent) × (compute_trust_event (some after) after ≡ some e)
            × (e.type ≡ collapse)
            × (e.delta ≡ pos 0)))
compute_trust_event-unchanged_example = compute_trust_event-unchanged after

-- Where the minimum band is `allowed`, a high risk level bars a restricted subject and only
-- restricts a quarantined one.
abbrev strict : RiskRules
strict risk = record {
  minimum_band_for_execution = allowed;
  minimum_band_for_validation = preferred;
}

restricted_test : band_decision strict restricted high_risk ≡ deny
unfolding band_decision band_at_least below_minimum mapping
restricted_test = refl

quarantined_test : band_decision strict quarantined high_risk ≡ restrict
unfolding band_decision band_at_least below_minimum mapping
quarantined_test = refl
