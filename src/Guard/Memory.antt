-- ===== src/Guard/Memory.antt =====
-- `InMemoryPaidRequestGuardStore` of request-guard-store.mjs.
use infopunks_trust_layer_ag.Base.{
  ℕ, String, true, false, Option, none, some, List, [], ◌∷◌, ◌==◌, if◌then◌else◌,
}
use infopunks_trust_layer_ag.Base.Json.{null}
use infopunks_trust_layer_ag.Guard.Record.{Record, Claim, Result, Claimed, granted, conflict}

-- `this.records`, a `Map` in the order of insertion.
abbrev pub Records : Type 0
Records = List (String × Record)

unfoldable pub map_get : String → Records → Option Record
map_get key [] = none
map_get key ((k, v) ∷ rest) = if k == key then some v else map_get key rest

unfoldable pub map_set : String → Record → Records → Records
map_set key record' [] = (key, record') ∷ []
map_set key record' ((k, v) ∷ rest) =
    if k == key then (k, record') ∷ rest else (k, v) ∷ map_set key record' rest

unfoldable pub new_record : Claim → ℕ → Record
new_record q now = record {
  key = q.key;
  request_hash = q.request_hash;
  status_code = none;
  response_json = none;
  response = null;
  error_code = none;
  receipt_id = none;
  payer = q.payer;
  subject_id = q.subject_id;
  nonce = q.nonce;
  mode = q.mode;
  created_at = now;
  updated_at = now;
}

unfoldable pub memory_reserve : Claim → ℕ → Records → Claimed × Records
unfolding new_record
memory_reserve q now records = elim (map_get q.key records) [
  | none ↦ (granted true (some (new_record q now)), map_set q.key (new_record q now) records)
  | some existing ↦
      if existing.request_hash == q.request_hash
      then (granted false (some existing), records)
      else (conflict (some existing.request_hash), records)
]

unfoldable pub updated_record : Result → ℕ → Record → Record
updated_record r now existing = record existing {
  status_code = r.status_code;
  response_json = some r.response;
  response = r.response;
  error_code = r.error_code;
  receipt_id = r.receipt_id;
  updated_at = now;
}

unfoldable pub memory_finalize : Result → ℕ → Records → Option Record × Records
unfolding updated_record
memory_finalize r now records = elim (map_get r.key records) [
  | none ↦ (none, records)
  | some existing ↦
      (some (updated_record r now existing), map_set r.key (updated_record r now existing) records)
]
