-- ===== src/Trust/Unchanged.antt =====
-- What the engine reports of a resolution that does not change.
use infopunks_trust_layer_ag.Base.{
  ℕ, ◌≡◌, refl, inl, inr, ◌⊎◌, true, false, ◌&&◌, Option, none, some, [], arith, eq_iff, ltb,
  Bool-cases,
}
use infopunks_trust_layer_ag.Trust.Band.{
  Band, quarantined, restricted, watch, allowed, preferred, privileged,
}
use infopunks_trust_layer_ag.Trust.Policy.{TrustState, state_text, Action, action_text}
use infopunks_trust_layer_ag.Trust.Event.{
  pos, difference, at_least, at_most_minus, Resolution, state_events, action_events,
  priority_events, extra_events, collapse, TrustEvent, is_low_band, is_quarantined, recovers_from,
  recovers_to, event_of, policy_event, collapse_event, event_between, compute_trust_event,
}

state_events-same : (o : Option TrustState) → state_events o o ≡ []
unfolding state_events
state_events-same none = refl
state_events-same (some s) = rw ((eq_iff (state_text s) (state_text s)).1 refl)

action_events-same : (o : Option Action) → action_events o o ≡ []
unfolding action_events
action_events-same none = refl
action_events-same (some a) = rw ((eq_iff (action_text a) (action_text a)).1 refl)

priority_events-same : (o : Option ℕ) → priority_events o o ≡ []
unfolding priority_events
priority_events-same none = refl
priority_events-same (some n) = ground arith

difference-same : (n : ℕ) → difference n n ≡ pos 0
difference-same n = ground arith

collapse_event-same :
    (r : Resolution)
    → ((collapse_event r r []).type ≡ collapse) × ((collapse_event r r []).delta ≡ pos 0)
unfolding collapse_event event_of
collapse_event-same r = elim (Bool-cases (is_quarantined r.band)) [
  | inl deep ↦ rw (deep, collapse_event) (refl, difference-same r.score)
  | inr shallow ↦ rw (shallow, collapse_event) (refl, difference-same r.score)
]

no_recovery : (b : Band) → (recovers_from b && recovers_to b) ≡ false
no_recovery quarantined = refl
no_recovery restricted = refl
no_recovery watch = refl
no_recovery allowed = refl
no_recovery preferred = refl
no_recovery privileged = refl

not_less : (n : ℕ) → ltb n n ≡ false
not_less n = ground arith

no_rise : (n : ℕ) → at_least 10 (difference n n) ≡ false
no_rise n = ground arith

no_fall : (n : ℕ) → at_most_minus 15 (difference n n) ≡ false
no_fall n = ground arith

extra_events-same : (r : Resolution) → extra_events r r ≡ []
unfolding extra_events
extra_events-same r =
    rw
      (
        state_events-same r.trust_state,
        action_events-same r.action,
        priority_events-same r.routing_priority,
      )
      refl

-- A resolution that does not change raises no event if its band is watch or above, and a collapse
-- with a change of zero if its band is restricted or quarantined.
pub compute_trust_event-unchanged :
    (r : Resolution)
    → ((is_low_band r.band ≡ false) × (compute_trust_event (some r) r ≡ none))
      ⊎ ((is_low_band r.band ≡ true)
          × ((e : TrustEvent) × (compute_trust_event (some r) r ≡ some e)
              × (e.type ≡ collapse)
              × (e.delta ≡ pos 0)))
unfolding compute_trust_event extra_events
compute_trust_event-unchanged r =
    rw (extra_events-same r) (silent (Bool-cases (is_low_band r.band)))
  where
    silent :
        (is_low_band r.band ≡ true) ⊎ (is_low_band r.band ≡ false)
        → ((is_low_band r.band ≡ false) × (event_between r r [] ≡ none))
          ⊎ ((is_low_band r.band ≡ true)
              × ((e : TrustEvent) × (event_between r r [] ≡ some e)
                  × (e.type ≡ collapse)
                  × (e.delta ≡ pos 0)))
    silent (inl is_low) = inr (
      is_low,
      let (kind, change) = collapse_event-same r in
          rw (no_rise r.score, no_fall r.score, is_low, event_between) (_, refl, kind, change),
    )
    silent (inr is_high) = inl (
      is_high,
      rw (
        difference-same r.score,
        is_high,
        no_recovery r.band,
        not_less r.score,
        event_between,
        policy_event,
      ),
    )
