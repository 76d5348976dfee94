-- ===== src/Trust/Alerts.antt =====
-- Which changes of a resolution the engine reports.
use infopunks_trust_layer_ag.Base.{
  any-append, ◌≡◌, ◌≢◌, refl, sym, ap, ◌∙◌, inl, inr, String, Bool, true, false, not, ◌&&◌, ◌||◌,
  Option, some, List, [], ◌∷◌, ◌++◌, arith, ◌==◌, eq_iff, ltb, any, Bool-cases, if◌then◌else◌,
}
use infopunks_trust_layer_ag.Trust.Policy.{
  TrustState, unknown_state, verified_state, degrading_state, risky_state, compromised_state,
  quarantined_state, Action, allow_all, rate_limit, require_escrow, require_secondary_validation,
  manual_review, block, quarantine, action_text,
}
use infopunks_trust_layer_ag.Trust.Event.{
  difference, at_least, at_most_minus, Resolution, Extra, agent_quarantined, policy_action_changed,
  state_events, action_events, priority_events, extra_events, TrustEvent, is_low_band, same_action,
  recovers_from, recovers_to, event_of, policy_event, collapse_event, event_between,
  compute_trust_event,
}

-- Some event carries an extra event of the test.
abbrev pub Carries : (Extra → Bool) → Option TrustEvent → Type 0
Carries p o = (e : TrustEvent) × (o ≡ some e) × (any p e.extras ≡ true)

collapse_event-any :
    (p : Extra → Bool) (before after : Resolution) (extras : List Extra)
    → any p extras ≡ true
    → any p (collapse_event before after extras).extras ≡ true
unfolding collapse_event event_of
collapse_event-any p before after extras h = ground arith

policy_event-Carries :
    (p : Extra → Bool) (before after : Resolution) (extras : List Extra)
    → any p extras ≡ true
    → Carries p (policy_event before after extras)
unfolding policy_event event_of
policy_event-Carries p before after [] h = cc
policy_event-Carries p before after (e ∷ es) h = (_, refl, h)

event_between-Carries :
    (p : Extra → Bool) (before after : Resolution) (extras : List Extra)
    → any p extras ≡ true
    → Carries p (event_between before after extras)
unfolding event_between event_of
event_between-Carries p before after extras h =
    elim (Bool-cases (at_least 10 (difference after.score before.score))) [
      | inl e ↦ rw (e, event_between) (_, refl, ground arith)
      | inr e ↦
          elim (Bool-cases
            (at_most_minus 15 (difference after.score before.score) || is_low_band after.band)) [
              | inl f ↦
                  rw (e, f, event_between) (_, refl, collapse_event-any p before after extras h)
              | inr f ↦ elim (Bool-cases (recovers_from before.band && recovers_to after.band)) [
                | inl g ↦ rw (e, f, g, event_between) (_, refl, h)
                | inr g ↦
                    elim (Bool-cases (
                      ltb after.score before.score
                      && not
                          (any (λ code. code == "fresh_evidence_available") after.reason_codes))) [
                            | inl k ↦ rw (e, f, g, k, event_between) (_, refl, ground arith)
                            | inr k ↦
                                rw (e, f, g, k, event_between)
                                  (policy_event-Carries p before after extras h)
                          ]
              ]
            ]
    ]

abbrev pub is_quarantine_alert : Extra → Bool
is_quarantine_alert (agent_quarantined, severity) = true
is_quarantine_alert (kind, severity) = false

abbrev pub is_policy_alert : Extra → Bool
is_policy_alert (policy_action_changed, severity) = true
is_policy_alert (kind, severity) = false

quarantine_events :
    (state : TrustState)
    → state ≢ quarantined_state
    → any is_quarantine_alert (state_events (some state) (some quarantined_state)) ≡ true
unfolding state_events
quarantine_events unknown_state h = refl
quarantine_events verified_state h = refl
quarantine_events degrading_state h = refl
quarantine_events risky_state h = refl
quarantine_events compromised_state h = refl
quarantine_events quarantined_state h = absurd (h refl)

action_of_text : String → Action
action_of_text t =
    if t == "ALLOW"
    then allow_all
    else if t == "RATE_LIMIT"
    then rate_limit
    else if t == "REQUIRE_ESCROW"
    then require_escrow
    else if t == "REQUIRE_SECONDARY_VALIDATION"
    then require_secondary_validation
    else if t == "MANUAL_REVIEW"
    then manual_review
    else if t == "BLOCK"
    then block
    else quarantine

action_of_text_lem : (a : Action) → action_of_text (action_text a) ≡ a
unfolding action_of_text
action_of_text_lem allow_all = refl
action_of_text_lem rate_limit = refl
action_of_text_lem require_escrow = refl
action_of_text_lem require_secondary_validation = refl
action_of_text_lem manual_review = refl
action_of_text_lem block = refl
action_of_text_lem quarantine = refl

same_action-eq : (a b : Action) → same_action a b ≡ true → a ≡ b
same_action-eq a b h =
    sym (action_of_text_lem a)
    ∙ ap action_of_text ((eq_iff (action_text a) (action_text b)).0 h)
    ∙ action_of_text_lem b

policy_events :
    (a b : Action) → a ≢ b → any is_policy_alert (action_events (some a) (some b)) ≡ true
unfolding action_events
policy_events a b h = elim (Bool-cases (same_action a b)) [
  | inl same ↦ absurd (h (same_action-eq a b same))
  | inr differs ↦ rw (differs, action_events)
]

-- When a subject passes from a known state other than quarantined to the quarantined one, an event
-- is raised that carries the quarantine alert, whatever its scores, bands, policies and reasons.
pub compute_trust_event-quarantine :
    (before after : Resolution) (state : TrustState)
    → before.trust_state ≡ some state
    → state ≢ quarantined_state
    → after.trust_state ≡ some quarantined_state
    → Carries is_quarantine_alert (compute_trust_event (some before) after)
unfolding compute_trust_event extra_events
compute_trust_event-quarantine before after state was differs is =
    event_between-Carries is_quarantine_alert before after (extra_events before after) (
      rw (was, is)
        (ground (
          arith,
          quarantine_events state differs,
          any-append is_quarantine_alert (state_events (some state) (some quarantined_state)) (
              action_events before.action after.action
              ++ priority_events before.routing_priority after.routing_priority),
        )))

-- When the action of a subject's policy changes to another one, an event is raised that carries the
-- alert for it, whatever its scores, bands, states and reasons.
pub compute_trust_event-action :
    (before after : Resolution) (a b : Action)
    → before.action ≡ some a
    → after.action ≡ some b
    → a ≢ b
    → Carries is_policy_alert (compute_trust_event (some before) after)
unfolding compute_trust_event extra_events
compute_trust_event-action before after a b was is differs =
    event_between-Carries is_policy_alert before after (extra_events before after) (
      rw (was, is)
        (ground (
          arith,
          policy_events a b differs,
          any-append is_policy_alert (state_events before.trust_state after.trust_state) (
              action_events (some a) (some b)
              ++ priority_events before.routing_priority after.routing_priority),
          any-append is_policy_alert (action_events (some a) (some b))
              (priority_events before.routing_priority after.routing_priority),
        )))
