-- ===== src/Trust/Safety.antt =====
-- What a policy of the trust engine guarantees, whatever the vector and the state.
use infopunks_trust_layer_ag.Base.{
  any-append, ◌≤◌, ◌<◌, ◌≡◌, refl, inl, inr, String, Bool, true, false, not, ◌&&◌, List, [], ◌∷◌,
  arith, ◌==◌, eq_iff, ltb, any, Distinct, Bool-cases,
}
use infopunks_trust_layer_ag.Trust.Policy.{
  TrustState, unknown_state, verified_state, degrading_state, risky_state, compromised_state,
  quarantined_state, require_secondary_validation, TrustVector, Policy, derive_policy,
  derive_action, is_barred, is_allow, unique_onto, push_if, is_state_quarantined,
  policy_reason_codes, routing_priority_of,
}

-- A subject that is not barred is still held back by each of its weaknesses.
abbrev pub IsGuarded : TrustVector → Policy → Type 0
IsGuarded v p =
    (70 < v.adversarial_risk
      → (p.secondary_validation_required ≡ true)
        × (is_barred p.action ≡ false → p.action ≡ require_secondary_validation))
    × (v.economic_integrity < 60 → (p.escrow_required ≡ true) × (is_allow p.action ≡ false))
    × (v.execution_reliability < 50 → is_allow p.action ≡ false)

-- What the assignments of the action leave.
held_back :
    (v : TrustVector) (state : TrustState)
    → (70 < v.adversarial_risk
        → is_barred (derive_action v state) ≡ false
        → derive_action v state ≡ require_secondary_validation)
      × (v.economic_integrity < 60 → is_allow (derive_action v state) ≡ false)
      × (v.execution_reliability < 50 → is_allow (derive_action v state) ≡ false)
unfolding derive_action
held_back v unknown_state = ((λ h k. ground arith), (λ h. ground arith), (λ h. ground arith))
held_back v verified_state = ((λ h k. ground arith), (λ h. ground arith), (λ h. ground arith))
held_back v degrading_state = ((λ h k. ground arith), (λ h. ground arith), (λ h. ground arith))
held_back v risky_state = ((λ h k. ground arith), (λ h. ground arith), (λ h. ground arith))
held_back v compromised_state = ((λ h k. ground arith), (λ h. ground arith), (λ h. ground arith))
held_back v quarantined_state = ((λ h k. ground arith), (λ h. ground arith), (λ h. ground arith))

validation_required :
    (v : TrustVector) (state : TrustState) (codes : List String)
    → 70 < v.adversarial_risk
    → (derive_policy v state codes).secondary_validation_required ≡ true
unfolding derive_policy
validation_required v state codes h = ground arith

escrow_required :
    (v : TrustVector) (state : TrustState) (codes : List String)
    → v.economic_integrity < 60
    → (derive_policy v state codes).escrow_required ≡ true
unfolding derive_policy
escrow_required v state codes h = ground arith

routing_priority_of-le : (v : TrustVector) → routing_priority_of v ≤ 100
unfolding routing_priority_of
routing_priority_of-le v = omega arith

-- A code is listed if it is among those given and was not seen before, and once.
unique_onto-any :
    (x : String) (seen codes : List String)
    → any (λ t. t == x) (unique_onto seen codes)
      ≡ (any (λ t. t == x) codes && not (any (λ t. t == x) seen))
unfolding unique_onto
unique_onto-any x seen [] = refl
unique_onto-any x seen (s ∷ ss) = elim (Bool-cases (s == x)) [
  | inl same ↦
      rw ((eq_iff s x).0 same) (ground (arith, (eq_iff x x).1 refl, unique_onto-any x seen ss))
  | inr other ↦ ground (arith, unique_onto-any x seen ss, unique_onto-any x (s ∷ seen) ss)
]

unique_onto-Distinct :
    (seen codes : List String) → Distinct (λ a b. b == a) (unique_onto seen codes)
unfolding unique_onto
unique_onto-Distinct seen [] = tt
unique_onto-Distinct seen (s ∷ ss) = elim (Bool-cases (any (λ t. t == s) seen)) [
  | inl old ↦ rw old (unique_onto-Distinct seen ss)
  | inr new ↦ rw new (
    ground (arith, (eq_iff s s).1 refl, unique_onto-any s (s ∷ seen) ss),
    unique_onto-Distinct (s ∷ seen) ss,
  )
]

push_if-any :
    (p : String → Bool) (c : Bool) (reason : String) (codes : List String)
    → any p codes ≡ true
    → any p (push_if c reason codes) ≡ true
push_if-any p c reason codes h = ground (arith, any-append p codes (reason ∷ []))

policy_reason_codes-any :
    (v : TrustVector) (state : TrustState) (codes : List String) (x : String)
    → any (λ t. t == x) codes ≡ true
    → any (λ t. t == x) (policy_reason_codes v state codes) ≡ true
unfolding policy_reason_codes
policy_reason_codes-any v state codes x h =
    let p : String → Bool = λ t. t == x in
    let c1 = push_if (ltb 70 v.adversarial_risk) "adversarial_risk_elevated" codes in
    let c2 = push_if (ltb v.economic_integrity 60) "economic_integrity_low" c1 in
    let c3 = push_if (ltb v.execution_reliability 50) "execution_reliability_low" c2 in
    let c4 = push_if (ltb v.evidence_freshness 40) "evidence_freshness_low" c3 in
    push_if-any p (is_state_quarantined state) "state_quarantined" c4 (
      push_if-any p (ltb v.evidence_freshness 40) "evidence_freshness_low" c3 (
        push_if-any p (ltb v.execution_reliability 50) "execution_reliability_low" c2 (
          push_if-any p (ltb v.economic_integrity 60) "economic_integrity_low" c1
            (push_if-any p (ltb 70 v.adversarial_risk) "adversarial_risk_elevated" codes h))))

-- The policy holds back a subject with a high adversarial risk, a low economic integrity or a low
-- reliability; it allows exactly what it does not bar; its reason codes are distinct and include
-- those given; its priority is at most 100.
pub record IsSafe (v : TrustVector) (codes : List String) (p : Policy) : Type 0 where
  pub guarded : IsGuarded v p
  pub allows_unless_barred : p.allows ≡ not (is_barred p.action)
  pub distinct_codes : Distinct (λ a b. b == a) p.reason_codes
  pub given_codes :
      (x : String) → any (λ t. t == x) codes ≡ true → any (λ t. t == x) p.reason_codes ≡ true
  pub small_priority : p.priority ≤ 100

-- Every policy requires secondary validation of a subject with an adversarial risk above 70, and
-- makes that its action unless it is barred; requires escrow and does not simply allow where
-- economic integrity is below 60; does not simply allow where reliability is below 50; allows
-- exactly what it neither blocks nor quarantines; lists no reason twice and every reason given; and
-- has a priority of at most 100.
pub derive_policy-IsSafe :
    (v : TrustVector) (state : TrustState) (codes : List String)
    → IsSafe v codes (derive_policy v state codes)
unfolding derive_policy
derive_policy-IsSafe v state codes =
    let (barred, poor, unreliable) = held_back v state in
    record {
      guarded = (
        (λ h. (validation_required v state codes h, barred h)),
        (λ h. (escrow_required v state codes h, poor h)),
        unreliable,
      );
      allows_unless_barred = refl;
      distinct_codes = unique_onto-Distinct [] (policy_reason_codes v state codes);
      given_codes = λ x h. ground (
        arith,
        unique_onto-any x [] (policy_reason_codes v state codes),
        policy_reason_codes-any v state codes x h,
      );
      small_priority = routing_priority_of-le v;
    }
