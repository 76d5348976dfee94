-- ===== src/Platform/Registry.antt =====
-- The tables of passports, evidence, events and idempotency keys (db.mjs), with `emitEvent` and
-- `idempotent` of platform.mjs. The hash of a request is an argument.
use infopunks_trust_layer_ag.Base.{
  ℕ, String, Bool, Option, none, some, List, ◌∷◌, ◌==◌, not, ◌||◌, find_row, truthy, text_of,
  if◌then◌else◌,
}
use infopunks_trust_layer_ag.Base.Json.{Json}

pub record AppError : Type 0 where
  pub code : String
  pub message : String
  pub status_code : ℕ

-- What a call returns, or the error that it throws.
pub data Attempt {ℓ} (A : Type ℓ) : Type ℓ where
  returned : A → Attempt A
  threw : AppError → Attempt A

pub record Lifecycle : Type 0 where
  pub status_reason : Option String
  pub last_status_change_at : ℕ
  pub last_key_rotation_at : Option ℕ

-- Of the metadata, the signature of the issuer and the lifecycle.
pub record PassportRow : Type 0 where
  pub passport_id : String
  pub subject_id : String
  pub subject_type : String
  pub did : Option String
  pub status : String
  pub issuer_id : String
  pub issuer_signature : String
  pub lifecycle : Lifecycle
  pub created_at : ℕ
  pub updated_at : ℕ

pub record KeyRow : Type 0 where
  pub passport_id : String
  pub kid : String
  pub alg : String
  pub public_key : String

pub record CapabilityRow : Type 0 where
  pub passport_id : String
  pub name : String
  pub version : String
  pub verified : Bool

pub record EvidenceRow : Type 0 where
  pub evidence_id : String
  pub evidence_hash : String
  pub subject_id : String
  pub event_type : String
  pub details : Json
  pub created_at : ℕ

pub record EventRow : Type 0 where
  pub type : String
  pub subject_id : String

-- The bodies that `idempotent` stores, as JSON.
pub data Body : Type 0 where
  passport_created : String → String → ℕ → Body
  evidence_accepted : String → Body

pub record KeyedResponse : Type 0 where
  pub key : String
  pub endpoint : String
  pub request_hash : String
  pub response_body : Body

pub record Registry : Type 0 where
  pub passports : List PassportRow
  pub passport_keys : List KeyRow
  pub passport_capabilities : List CapabilityRow
  pub evidence_records : List EvidenceRow
  pub trust_events : List EventRow
  pub idempotency_keys : List KeyedResponse

-- `emitEvent`: an event, and a second one under its alias.
unfoldable pub emit_event : String → String → Registry → Registry
emit_event type subject s =
    let event : EventRow = record { type = type; subject_id = subject } in
    record s {
      trust_events =
          if type == "passport.key_rotated"
          then record { type = "passport.rotated"; subject_id = subject } ∷ event ∷ s.trust_events
          else if type == "warroom.alerted"
          then record { type = "warroom.alert.raised"; subject_id = subject }
            ∷ event
            ∷ s.trust_events
          else event ∷ s.trust_events;
    }

abbrev pub has_key : String → KeyedResponse → Bool
has_key key r = r.key == key

abbrev pub conflict_error : AppError
conflict_error = record {
  code = "IDEMPOTENCY_CONFLICT";
  message = "Idempotency conflict.";
  status_code = 409;
}

abbrev pub store_response : KeyedResponse → Registry → Registry
store_response r s = record s { idempotency_keys = r ∷ s.idempotency_keys }

-- The response of a key, if it was of the same request.
unfoldable pub replayed : String → String → KeyedResponse → Attempt Body
replayed endpoint request_hash r =
    if not (r.endpoint == endpoint) || not (r.request_hash == request_hash)
    then threw conflict_error
    else returned r.response_body

-- What a handler returned is stored; an error is not.
unfoldable pub remember :
    String → String → String → Attempt Body × Registry → Attempt Body × Registry
remember key endpoint request_hash (threw error, s) = (threw error, s)
remember key endpoint request_hash (returned body, s) = (
  returned body,
  store_response
      record { key = key; endpoint = endpoint; request_hash = request_hash; response_body = body }
      s,
)

unfoldable pub idempotent :
    String
    → Option String
    → String
    → (Registry → Attempt Body × Registry)
    → Registry
    → Attempt Body × Registry
idempotent endpoint key request_hash handler s =
    if not (truthy key)
    then handler s
    else elim (find_row (has_key (text_of key)) s.idempotency_keys) [
      | some existing ↦ (replayed endpoint request_hash existing, s)
      | none ↦ remember (text_of key) endpoint request_hash (handler s)
    ]
