-- ===== src/Platform/Evidence.antt =====
-- `recordEvidence` of platform.mjs. The fingerprint of the evidence is an argument. The snapshot that
-- is computed anew is not a part of these tables.
use infopunks_trust_layer_ag.Base.{
  ℕ, String, Bool, not, ◌||◌, Option, none, some, List, [], ◌∷◌, ◌==◌, any, find_row, is_empty,
  get_or_else, if◌then◌else◌,
}
use infopunks_trust_layer_ag.Base.Json.{Json}
use infopunks_trust_layer_ag.Platform.Registry.{
  Attempt, returned, threw, EvidenceRow, Body, evidence_accepted, Registry, emit_event, idempotent,
}
use infopunks_trust_layer_ag.Platform.Passports.{ensure_subject, set_passport_status}

pub record NewEvidence : Type 0 where
  pub subject_id : String
  pub event_type : String
  pub fingerprint : String
  pub details : Json
  pub created_at : Option ℕ

-- `EVIDENCE_EVENT_TYPES`
abbrev evidence_event_types : List String
evidence_event_types =
    "task.completed" ∷ "task.failed" ∷ "task.timeout" ∷ "validation.passed" ∷ "validation.failed"
    ∷ "validation.reversed" ∷ "dispute.opened" ∷ "dispute.resolved" ∷ "route.selected"
    ∷ "route.blocked" ∷ "collusion.suspected" ∷ "passport.revoked" ∷ "CLEAN_EXECUTION"
    ∷ "PAYMENT_VERIFIED" ∷ "PAYMENT_FAILED" ∷ "REPLAY_ATTEMPT" ∷ "DUPLICATE_PAYMENT_SIGNATURE"
    ∷ "MALFORMED_PAYLOAD" ∷ "PAYLOAD_MISMATCH" ∷ "VERIFIER_DELAY" ∷ "RATE_SPIKE"
    ∷ "OUTPUT_INCONSISTENCY" ∷ "DEPENDENCY_FAILURE" ∷ "MANUAL_OVERRIDE" ∷ "QUARANTINE" ∷ []

unfoldable pub is_evidence_type : String → Bool
is_evidence_type t = any (λ x. x == t) evidence_event_types

abbrev pub has_fingerprint : String → EvidenceRow → Bool
has_fingerprint fingerprint r = r.evidence_hash == fingerprint

-- The tables with the new evidence, and its event.
unfoldable pub persist_evidence : NewEvidence → String → ℕ → Registry → Registry
persist_evidence input evidence_id now s = emit_event input.event_type input.subject_id (record s {
  evidence_records =
      record {
        evidence_id = evidence_id;
        evidence_hash = input.fingerprint;
        subject_id = input.subject_id;
        event_type = input.event_type;
        details = input.details;
        created_at = get_or_else input.created_at now;
      }
      ∷ s.evidence_records;
})

unfoldable pub accept_evidence : NewEvidence → String → ℕ → Registry → Attempt Body × Registry
accept_evidence input evidence_id now s =
    if is_empty input.subject_id || not (is_evidence_type input.event_type)
    then (
      threw record {
        code = "INVALID_REQUEST";
        message = "Invalid evidence input.";
        status_code = 400;
      },
      s,
    )
    else elim (ensure_subject input.subject_id s) [
      | threw error ↦ (threw error, s)
      | returned p ↦ elim (find_row (has_fingerprint input.fingerprint) s.evidence_records) [
        | some existing ↦ (returned (evidence_accepted existing.evidence_id), s)
        | none ↦
            let s' = persist_evidence input evidence_id now s in
            (
              returned (evidence_accepted evidence_id),
              if input.event_type == "passport.revoked"
                  then (set_passport_status input.subject_id "revoked" now s').1
                  else s',
            )
      ]
    ]

unfoldable pub record_evidence :
    NewEvidence → Option String → String → String → ℕ → Registry → Attempt Body × Registry
record_evidence input key request_hash evidence_id now s =
    idempotent "/v1/evidence" key request_hash (accept_evidence input evidence_id now) s
