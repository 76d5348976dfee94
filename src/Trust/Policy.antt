-- ===== src/Trust/Policy.antt =====
-- `deriveTrustState`, `derivePolicy` and `mapActionToLegacyDecision`. Scores and the entries of the
-- vector are whole, as `computeResolution` rounds them before. The routing priority is computed in
-- hundredths, without the rounding of floating point numbers.
use Prim.Native.Char.{code}
use infopunks_trust_layer_ag.Base.{
  ℕ, ◌+◌, ◌-◌, ◌*◌, ◌/◌, min, String, Bool, true, false, not, ◌&&◌, ◌||◌, List, [], ◌∷◌, ◌++◌, ◌==◌,
  ◌^^◌, ltb, leb, eqb, any, is_empty, to_lower_case, if◌then◌else◌,
}
use infopunks_trust_layer_ag.Trust.Band.{Decision, allow, restrict, deny}

-- `TRUST_STATES`
pub data TrustState : Type 0 where
  unknown_state : TrustState
  verified_state : TrustState
  degrading_state : TrustState
  risky_state : TrustState
  compromised_state : TrustState
  quarantined_state : TrustState

abbrev pub state_text : TrustState → String
state_text unknown_state = "UNKNOWN"
state_text verified_state = "VERIFIED"
state_text degrading_state = "DEGRADING"
state_text risky_state = "RISKY"
state_text compromised_state = "COMPROMISED"
state_text quarantined_state = "QUARANTINED"

-- `TRUST_POLICY_ACTIONS`
pub data Action : Type 0 where
  allow_all : Action
  rate_limit : Action
  require_escrow : Action
  require_secondary_validation : Action
  manual_review : Action
  block : Action
  quarantine : Action

abbrev pub action_text : Action → String
action_text allow_all = "ALLOW"
action_text rate_limit = "RATE_LIMIT"
action_text require_escrow = "REQUIRE_ESCROW"
action_text require_secondary_validation = "REQUIRE_SECONDARY_VALIDATION"
action_text manual_review = "MANUAL_REVIEW"
action_text block = "BLOCK"
action_text quarantine = "QUARANTINE"

pub record TrustVector : Type 0 where
  pub execution_reliability : ℕ
  pub economic_integrity : ℕ
  pub dependency_risk : ℕ
  pub adversarial_risk : ℕ
  pub evidence_freshness : ℕ

pub record Thresholds : Type 0 where
  pub min_verified_score : ℕ
  pub risky_threshold : ℕ
  pub quarantine_threshold : ℕ

-- `signals` is `rawVector.adversarial_event_counts.QUARANTINE ?? 0`.
unfoldable pub derive_trust_state : TrustVector → ℕ → Thresholds → ℕ → TrustState
derive_trust_state v score t signals =
    if ltb 0 signals || (leb 90 v.adversarial_risk || leb score t.quarantine_threshold)
    then quarantined_state
    else if leb 80 v.adversarial_risk || leb score 35
    then compromised_state
    else if ltb score t.risky_threshold || leb 70 v.adversarial_risk
    then risky_state
    else if ltb v.evidence_freshness 40 || ltb v.execution_reliability 50
    then degrading_state
    else if leb t.min_verified_score score && ltb v.adversarial_risk 40
    then verified_state
    else unknown_state

abbrev pub action_of_state : TrustState → Action
action_of_state quarantined_state = quarantine
action_of_state compromised_state = block
action_of_state risky_state = require_secondary_validation
action_of_state degrading_state = rate_limit
action_of_state verified_state = allow_all
action_of_state unknown_state = allow_all

abbrev pub is_barred : Action → Bool
is_barred block = true
is_barred quarantine = true
is_barred action = false

abbrev pub is_allow : Action → Bool
is_allow allow_all = true
is_allow action = false

abbrev validated : TrustVector → Action → Action
validated v action =
    if ltb 70 v.adversarial_risk && not (is_barred action)
    then require_secondary_validation
    else action

abbrev escrowed : TrustVector → Action → Action
escrowed v action =
    if ltb v.economic_integrity 60 && is_allow action then require_escrow else action

abbrev limited : TrustVector → Action → Action
limited v action = if ltb v.execution_reliability 50 && is_allow action then rate_limit else action

-- The four assignments of `action`, in their order.
unfoldable pub derive_action : TrustVector → TrustState → Action
derive_action v state = limited v (escrowed v (validated v (action_of_state state)))

abbrev pub push_if : Bool → String → List String → List String
push_if condition reason codes = if condition then codes ++ reason ∷ [] else codes

abbrev pub is_state_quarantined : TrustState → Bool
is_state_quarantined quarantined_state = true
is_state_quarantined state = false

-- `[...new Set(codes)]`: the first of equal ones.
unfoldable pub unique_onto : List String → List String → List String
unique_onto seen [] = []
unique_onto seen (s ∷ ss) =
    let skipped = unique_onto seen ss in
    let kept = unique_onto (s ∷ seen) ss in if any (λ t. t == s) seen then skipped else s ∷ kept

unfoldable pub policy_reason_codes : TrustVector → TrustState → List String → List String
policy_reason_codes v state codes = push_if (is_state_quarantined state) "state_quarantined" (
    push_if (ltb v.evidence_freshness 40) "evidence_freshness_low" (
      push_if (ltb v.execution_reliability 50) "execution_reliability_low" (
        push_if (ltb v.economic_integrity 60) "economic_integrity_low"
          (push_if (ltb 70 v.adversarial_risk) "adversarial_risk_elevated" codes))))

-- `Math.round(clamp(0, 100 - 0.45 a - 0.25 d + 0.2 e, 100))`, in hundredths until it is rounded.
unfoldable pub routing_priority_of : TrustVector → ℕ
routing_priority_of v =
    (min (10000 + 20 * v.execution_reliability - (45 * v.adversarial_risk + 25 * v.dependency_risk))
        10000
      + 50)
    / 100

unfoldable pub max_requests_per_minute : Action → ℕ
max_requests_per_minute quarantine = 0
max_requests_per_minute block = 1
max_requests_per_minute manual_review = 4
max_requests_per_minute rate_limit = 20
max_requests_per_minute require_secondary_validation = 40
max_requests_per_minute require_escrow = 40
max_requests_per_minute allow_all = 120

-- `replaceAll("_", " ")`
unfoldable pub spaced_out : String → String
spaced_out String.[] = ""
spaced_out (String.◌∷◌ c s) = String.◌∷◌ (if eqb (code c) (code "_") then " " else c) (spaced_out s)

unfoldable pub join_codes : List String → String
join_codes [] = ""
join_codes (s ∷ ss) = elim ss [ [] ↦ s | t ∷ ts ↦ s ^^ ", " ^^ join_codes ss ]

unfoldable pub summary : TrustState → Action → List String → String
unfolding spaced_out join_codes
summary state action codes =
    "State "
    ^^ state_text state
    ^^ ": "
    ^^ to_lower_case (spaced_out (action_text action))
    ^^ " due to "
    ^^ (if is_empty (join_codes codes) then "baseline policy" else join_codes codes)
    ^^ "."

pub record Policy : Type 0 where
  pub allows : Bool
  pub action : Action
  pub priority : ℕ
  pub max_requests : ℕ
  pub escrow_required : Bool
  pub secondary_validation_required : Bool
  pub reason_codes : List String
  pub human_readable_summary : String

abbrev is_escrow : Action → Bool
is_escrow require_escrow = true
is_escrow action = false

abbrev is_validation : Action → Bool
is_validation require_secondary_validation = true
is_validation action = false

unfoldable pub derive_policy : TrustVector → TrustState → List String → Policy
unfolding derive_action policy_reason_codes
derive_policy v state codes =
    let action = derive_action v state in
    let unique = unique_onto [] (policy_reason_codes v state codes) in
    record {
      allows = not (is_barred action);
      action = action;
      priority = routing_priority_of v;
      max_requests = max_requests_per_minute action;
      escrow_required = is_escrow action || ltb v.economic_integrity 60;
      secondary_validation_required = is_validation action || ltb 70 v.adversarial_risk;
      reason_codes = unique;
      human_readable_summary = summary state action unique;
    }

unfoldable pub map_action_to_legacy_decision : Action → Decision → Decision
map_action_to_legacy_decision allow_all fallback = allow
map_action_to_legacy_decision block fallback = deny
map_action_to_legacy_decision quarantine fallback = deny
map_action_to_legacy_decision manual_review fallback = deny
map_action_to_legacy_decision rate_limit fallback = restrict
map_action_to_legacy_decision require_escrow fallback = restrict
map_action_to_legacy_decision require_secondary_validation fallback = restrict
