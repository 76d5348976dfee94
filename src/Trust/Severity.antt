-- ===== src/Trust/Severity.antt =====
-- Worse evidence never makes the trust state milder.
use infopunks_trust_layer_ag.Base.{ℕ, ◌≤◌, ◌≡◌, Bool, true, ◌||◌, arith, ltb, leb, if◌then◌else◌}
use infopunks_trust_layer_ag.Trust.Policy.{
  TrustState, unknown_state, verified_state, degrading_state, risky_state, compromised_state,
  quarantined_state, TrustVector, Thresholds, derive_trust_state,
}

-- How severe a state is; the unknown one counts as the verified one.
abbrev pub severity_rank : TrustState → ℕ
severity_rank unknown_state = 0
severity_rank verified_state = 0
severity_rank degrading_state = 1
severity_rank risky_state = 2
severity_rank compromised_state = 3
severity_rank quarantined_state = 4

abbrev ladder : Bool → Bool → Bool → Bool → ℕ
ladder a b c d = if a then 4 else if b then 3 else if c then 2 else if d then 1 else 0

abbrev Implies : Bool → Bool → Type 0
Implies a b = a ≡ true → b ≡ true

ladder-le :
    (a b c d a' b' c' d' : Bool)
    → Implies a a'
    → Implies b b'
    → Implies c c'
    → Implies d d'
    → ladder a b c d ≤ ladder a' b' c' d'
ladder-le a b c d a' b' c' d' p q r s = ground arith

derive_trust_state-ladder :
    (v : TrustVector) (score : ℕ) (t : Thresholds) (signals : ℕ)
    → severity_rank (derive_trust_state v score t signals)
      ≡ ladder
          (ltb 0 signals || (leb 90 v.adversarial_risk || leb score t.quarantine_threshold))
          (leb 80 v.adversarial_risk || leb score 35)
          (ltb score t.risky_threshold || leb 70 v.adversarial_risk)
          (ltb v.evidence_freshness 40 || ltb v.execution_reliability 50)
unfolding derive_trust_state
derive_trust_state-ladder v score t signals = ground arith

-- No score, reliability or freshness higher, no adversarial risk or count of quarantine signals
-- lower: what the state is made of is at least as bad.
pub record IsWorse (v v' : TrustVector) (score score' signals signals' : ℕ) : Type 0 where
  pub score_le : score' ≤ score
  pub risk_le : v.adversarial_risk ≤ v'.adversarial_risk
  pub freshness_le : v'.evidence_freshness ≤ v.evidence_freshness
  pub reliability_le : v'.execution_reliability ≤ v.execution_reliability
  pub signals_le : signals ≤ signals'

-- Under the same thresholds, evidence that is at least as bad gives a trust state that is at least
-- as severe: a score, freshness and reliability no higher, an adversarial risk and a number of
-- quarantine signals no lower; unknown and verified count alike.
pub derive_trust_state-severity :
    (v v' : TrustVector) (score score' signals signals' : ℕ) (t : Thresholds)
    → IsWorse v v' score score' signals signals'
    → severity_rank (derive_trust_state v score t signals)
      ≤ severity_rank (derive_trust_state v' score' t signals')
derive_trust_state-severity v v' score score' signals signals' t w =
    rw (derive_trust_state-ladder v score t signals, derive_trust_state-ladder v' score' t signals')
      (ladder-le _ _ _ _ _ _ _ _ (λ h. ground (arith, w.score_le, w.risk_le, w.signals_le))
        (λ h. ground (arith, w.score_le, w.risk_le)) (λ h. ground (arith, w.score_le, w.risk_le))
        (λ h. ground (arith, w.freshness_le, w.reliability_le)))
