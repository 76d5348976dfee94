-- ===== src/Guard/Record.antt =====
-- What the guard's two stores take and give.
use infopunks_trust_layer_ag.Base.{ℕ, String, Bool, Option}
use infopunks_trust_layer_ag.Base.Json.{Json}

-- A record as `getIdempotencyRecord` gives it.
pub record Record : Type 0 where
  pub key : String
  pub request_hash : String
  pub status_code : Option ℕ
  pub response_json : Option Json
  pub response : Json
  pub error_code : Option String
  pub receipt_id : Option String
  pub payer : Option String
  pub subject_id : Option String
  pub nonce : Option String
  pub mode : Option String
  pub created_at : ℕ
  pub updated_at : ℕ

pub record Claim : Type 0 where
  pub key : String
  pub request_hash : String
  pub payer : Option String
  pub subject_id : Option String
  pub nonce : Option String
  pub mode : Option String

pub record Result : Type 0 where
  pub key : String
  pub status_code : Option ℕ
  pub response : Json
  pub error_code : Option String
  pub receipt_id : Option String

pub data Claimed : Type 0 where
  -- `ok: true`, whether the record was created, and the record.
  granted : Bool → Option Record → Claimed
  -- `IDEMPOTENCY_CONFLICT`, with the hash that holds the key, where one was found.
  conflict : Option String → Claimed
