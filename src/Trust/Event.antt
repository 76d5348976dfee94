-- ===== src/Trust/Event.antt =====
-- `computeTrustEvent`. The context and the id of the evidence, which it only passes on, are left out.
use infopunks_trust_layer_ag.Base.{
  ℕ, suc, ◌+◌, ◌-◌, String, Bool, true, false, not, ◌&&◌, ◌||◌, Option, none, some, List, [], ◌∷◌,
  ◌++◌, ◌==◌, ltb, leb, any, if◌then◌else◌,
}
use infopunks_trust_layer_ag.Trust.Band.{
  Band, quarantined, restricted, watch, allowed, preferred, privileged,
}
use infopunks_trust_layer_ag.Trust.Policy.{
  TrustState, compromised_state, quarantined_state, state_text, Action, rate_limit, require_escrow,
  action_text,
}

-- Whole numbers over the natural numbers: `n`, and `-(n + 1)`.
pub data ℤ : Type 0 where
  pos : ℕ → ℤ
  negsuc : ℕ → ℤ

abbrev pub difference : ℕ → ℕ → ℤ
difference new prior = if leb prior new then pos (new - prior) else negsuc (prior - new - 1)

abbrev pub at_least : ℕ → ℤ → Bool
at_least bound (pos n) = leb bound n
at_least bound (negsuc n) = false

-- `delta <= -bound`
abbrev pub at_most_minus : ℕ → ℤ → Bool
at_most_minus bound (pos n) = false
at_most_minus bound (negsuc n) = leb bound (suc n)

-- What an event is computed from. Earlier resolutions may lack a state and a policy.
pub record Resolution : Type 0 where
  pub score : ℕ
  pub band : Band
  pub trust_state : Option TrustState
  pub action : Option Action
  pub routing_priority : Option ℕ
  pub reason_codes : List String

pub data ExtraType : Type 0 where
  agent_quarantined : ExtraType
  trust_collapse : ExtraType
  policy_action_changed : ExtraType
  agent_rate_limited : ExtraType
  agent_escrow_required : ExtraType
  routing_priority_changed : ExtraType
  trust_spike : ExtraType
  trust_decay : ExtraType

pub data Severity : Type 0 where
  info : Severity
  warning : Severity
  critical_alert : Severity

abbrev pub Extra : Type 0
Extra = ExtraType × Severity

abbrev pub same_state : TrustState → TrustState → Bool
same_state a b = state_text a == state_text b

abbrev pub same_action : Action → Action → Bool
same_action a b = action_text a == action_text b

abbrev has_collapsed : TrustState → Bool
has_collapsed compromised_state = true
has_collapsed quarantined_state = true
has_collapsed state = false

abbrev is_quarantined_state : TrustState → Bool
is_quarantined_state quarantined_state = true
is_quarantined_state state = false

abbrev only_if : Bool → Extra → List Extra
only_if condition e = if condition then e ∷ [] else []

unfoldable pub state_events : Option TrustState → Option TrustState → List Extra
state_events (some before) (some after) =
    if same_state before after
    then []
    else only_if (is_quarantined_state after) (agent_quarantined, critical_alert)
      ++ only_if (has_collapsed after) (trust_collapse, critical_alert)
state_events before after = []

unfoldable pub action_events : Option Action → Option Action → List Extra
action_events (some before) (some after) =
    if same_action before after
    then []
    else (policy_action_changed, warning)
      ∷ (only_if (same_action after rate_limit) (agent_rate_limited, warning)
          ++ only_if (same_action after require_escrow) (agent_escrow_required, warning))
action_events before after = []

-- `Math.abs(next - previous) >= 10`, of two finite priorities.
unfoldable pub priority_events : Option ℕ → Option ℕ → List Extra
priority_events (some before) (some after) =
    only_if (leb (before + 10) after || leb (after + 10) before) (routing_priority_changed, info)
priority_events before after = []

unfoldable pub extra_events : Resolution → Resolution → List Extra
extra_events before after =
    state_events before.trust_state after.trust_state
    ++ (action_events before.action after.action
        ++ priority_events before.routing_priority after.routing_priority)

pub data EventType : Type 0 where
  spike : EventType
  collapse : EventType
  recovered : EventType
  decayed : EventType

pub data EventSeverity : Type 0 where
  low : EventSeverity
  moderate : EventSeverity
  high : EventSeverity
  critical : EventSeverity

pub record TrustEvent : Type 0 where
  pub type : EventType
  pub prior_score : ℕ
  pub new_score : ℕ
  pub delta : ℤ
  pub severity : EventSeverity
  pub trigger : String
  pub recommended_actions : List String
  pub extras : List Extra

abbrev pub is_low_band : Band → Bool
is_low_band restricted = true
is_low_band quarantined = true
is_low_band band = false

abbrev pub is_quarantined : Band → Bool
is_quarantined quarantined = true
is_quarantined band = false

abbrev pub recovers_from : Band → Bool
recovers_from watch = true
recovers_from restricted = true
recovers_from band = false

abbrev pub recovers_to : Band → Bool
recovers_to allowed = true
recovers_to preferred = true
recovers_to privileged = true
recovers_to band = false

unfoldable pub event_of :
    Resolution
    → Resolution
    → EventType
    → EventSeverity
    → String
    → List String
    → List Extra
    → TrustEvent
event_of before after kind severity trigger actions extras = record {
  type = kind;
  prior_score = before.score;
  new_score = after.score;
  delta = difference after.score before.score;
  severity = severity;
  trigger = trigger;
  recommended_actions = actions;
  extras = extras;
}

unfoldable pub policy_event : Resolution → Resolution → List Extra → Option TrustEvent
unfolding event_of
policy_event before after [] = none
policy_event before after (e ∷ es) =
    some (event_of before after recovered low "policy_only" [] (e ∷ es))

unfoldable pub collapse_event : Resolution → Resolution → List Extra → TrustEvent
unfolding event_of
collapse_event before after extras =
    if is_quarantined after.band
    then event_of before after collapse critical "validator_reversal"
        ("quarantine_subject" ∷ "reroute_pending_tasks" ∷ "escalate_to_war_room" ∷ [])
        ((trust_collapse, critical_alert) ∷ extras)
    else event_of before after collapse high "validator_reversal"
        ("reroute_pending_tasks" ∷ "escalate_to_war_room" ∷ [])
        ((trust_collapse, critical_alert) ∷ extras)

unfoldable pub event_between : Resolution → Resolution → List Extra → Option TrustEvent
unfolding policy_event collapse_event event_of
event_between before after extras =
    let delta = difference after.score before.score in
    if at_least 10 delta
    then some (
        event_of before after spike moderate "evidence_delta" ("expand_execution_scope" ∷ [])
          ((trust_spike, info) ∷ extras))
    else if at_most_minus 15 delta || is_low_band after.band
    then some (collapse_event before after extras)
    else if recovers_from before.band && recovers_to after.band
    then some (
        event_of before after recovered moderate "recovery" ("restore_standard_routing" ∷ [])
          extras)
    else if ltb after.score before.score
        && not (any (λ code. code == "fresh_evidence_available") after.reason_codes)
    then some (
        event_of before after decayed low "decay" ("refresh_domain_evidence" ∷ [])
          ((trust_decay, warning) ∷ extras))
    else policy_event before after extras

unfoldable pub compute_trust_event : Option Resolution → Resolution → Option TrustEvent
unfolding event_between extra_events
compute_trust_event none after = none
compute_trust_event (some before) after = event_between before after (extra_events before after)
