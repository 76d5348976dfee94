-- ===== src/Guard/Store.antt =====
-- `getIdempotencyRecord`, `reserveIdempotencyKey` and `finalizeIdempotencyKey` of state-store.mjs.
use infopunks_trust_layer_ag.Base.{
  ℕ, String, Bool, true, false, Option, none, some, List, ◌==◌, find_row, update_rows,
  if◌then◌else◌,
}
use infopunks_trust_layer_ag.Base.Json.{Json, null, object, no_fields, or_json}
use infopunks_trust_layer_ag.Storage.Tables.{insert_unique}
use infopunks_trust_layer_ag.Guard.Record.{Record, Claim, Result, Claimed, granted, conflict}

-- The table `paid_idempotency`.
pub record IdempotencyRow : Type 0 where
  pub key : String
  pub request_hash : String
  pub status_code : Option ℕ
  pub response_json : Option Json
  pub error_code : Option String
  pub receipt_id : Option String
  pub payer : Option String
  pub subject_id : Option String
  pub nonce : Option String
  pub mode : Option String
  pub created_at : ℕ
  pub updated_at : ℕ

abbrev pub has_key : String → IdempotencyRow → Bool
has_key key r = r.key == key

-- `key TEXT PRIMARY KEY`
abbrev pub key_clash : IdempotencyRow → IdempotencyRow → Bool
key_clash a b = b.key == a.key

-- `fromJson(text, null)`
abbrev pub from_json : Option Json → Json
from_json none = null
from_json (some value) = value

unfoldable pub record_of : IdempotencyRow → Record
record_of r = record {
  key = r.key;
  request_hash = r.request_hash;
  status_code = r.status_code;
  response_json = r.response_json;
  response = from_json r.response_json;
  error_code = r.error_code;
  receipt_id = r.receipt_id;
  payer = r.payer;
  subject_id = r.subject_id;
  nonce = r.nonce;
  mode = r.mode;
  created_at = r.created_at;
  updated_at = r.updated_at;
}

unfoldable pub get_idempotency_record : String → List IdempotencyRow → Option Record
get_idempotency_record key rows = elim (find_row (has_key key) rows) [
  | none ↦ none
  | some r ↦ some (record_of r)
]

unfoldable pub idempotency_row : Claim → ℕ → IdempotencyRow
idempotency_row q now = record {
  key = q.key;
  request_hash = q.request_hash;
  status_code = none;
  response_json = none;
  error_code = none;
  receipt_id = none;
  payer = q.payer;
  subject_id = q.subject_id;
  nonce = q.nonce;
  mode = q.mode;
  created_at = now;
  updated_at = now;
}

unfoldable pub reserve_idempotency_key :
    Claim → ℕ → List IdempotencyRow → Claimed × List IdempotencyRow
reserve_idempotency_key q now rows = elim (insert_unique key_clash (idempotency_row q now) rows) [
  | some rows' ↦ (granted true (get_idempotency_record q.key rows'), rows')
  | none ↦ elim (get_idempotency_record q.key rows) [
    | none ↦ (conflict none, rows)
    | some existing ↦
        if existing.request_hash == q.request_hash
        then (granted false (some existing), rows)
        else (conflict (some existing.request_hash), rows)
  ]
]

-- `toJson(response ?? null)`: the text of `response`, or of `{}` in place of null.
unfoldable pub to_json : Json → Json
to_json response = or_json response (object no_fields)

unfoldable pub finalized_row : Result → ℕ → IdempotencyRow → IdempotencyRow
finalized_row r now row = record row {
  status_code = r.status_code;
  response_json = some (to_json r.response);
  error_code = r.error_code;
  receipt_id = r.receipt_id;
  updated_at = now;
}

unfoldable pub finalize_idempotency_key :
    Result → ℕ → List IdempotencyRow → Option Record × List IdempotencyRow
finalize_idempotency_key r now rows =
    let rows' = update_rows (has_key r.key) (finalized_row r now) rows in
    (get_idempotency_record r.key rows', rows')
