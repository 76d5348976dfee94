-- ===== src/Storage/Reserve.antt =====
-- `reservePaidOperation` and `createProvisionalReceipt` of state-store.mjs.
use infopunks_trust_layer_ag.Base.{
  ℕ, ◌+◌, String, Option, none, some, List, ltb, or_else, if◌then◌else◌,
}
use infopunks_trust_layer_ag.Storage.Tables.{
  ReceiptRow, Metadata, Payments, insert_receipt, day_prefix,
}
use infopunks_trust_layer_ag.Storage.Replay.{
  Identity, Refusal, replay_detected, spend_exceeded, fresh, refused, assert_not_replay,
}
use infopunks_trust_layer_ag.Storage.Receipts.{
  spend_by_day, get_receipt_by_verifier_reference, get_receipt_by_proof_id,
}

pub record Request : Type 0 where
  pub nonce : Option String
  pub proof_id : Option String
  pub session_id : Option String
  pub payer : String
  pub tool_name : String
  pub replay_window_seconds : ℕ
  pub verifier_reference : Option String
  pub billed_units : ℕ
  pub adapter_trace_id : Option String
  pub metadata : Metadata
  pub spend_limit_units : ℕ

-- What a call reads from outside: a random receipt id, and the clock, three times.
pub record Readings : Type 0 where
  pub receipt_id : String
  pub now : ℕ
  pub replay_now : ℕ
  pub expiry_base : ℕ

abbrev pub identity_of : Request → Identity
identity_of q = record {
  nonce = q.nonce;
  proof_id = q.proof_id;
  session_id = q.session_id;
  verifier_reference = q.verifier_reference;
  payer = some q.payer;
}

unfoldable pub new_receipt : Request → String → ℕ → ReceiptRow
new_receipt q receipt_id now = record {
  receipt_id = receipt_id;
  verifier_reference = q.verifier_reference;
  proof_id = q.proof_id;
  session_id = q.session_id;
  payer = q.payer;
  tool_name = q.tool_name;
  billed_units = q.billed_units;
  receipt_status = "verified";
  settlement_status = "provisional";
  provisional_at = now;
  settled_at = none;
  reversed_at = none;
  last_error = none;
  adapter_trace_id = q.adapter_trace_id;
  internal_trace_id = none;
  metadata = q.metadata;
  updated_at = now;
}

pub data Reservation : Type 0 where
  reserved : ReceiptRow → Reservation
  rejected : Refusal → Reservation

-- The transaction commits with both rows, or rolls back to the tables as they were.
unfoldable pub reserve_paid_operation : Request → Readings → Payments → Reservation × Payments
unfolding new_receipt
reserve_paid_operation q c s =
    let (replay, nonces) =
      assert_not_replay (identity_of q) (some q.tool_name) q.replay_window_seconds c.replay_now
        c.expiry_base s.replay_nonces in
    elim replay [
      | refused why ↦ (rejected why, s)
      | fresh _ ↦
          let current = spend_by_day q.payer (day_prefix c.now) s.payment_receipts in
          let projected = current + q.billed_units in
          let receipt = new_receipt q c.receipt_id c.now in
          if ltb q.spend_limit_units projected
          then (rejected (spend_exceeded current projected q.spend_limit_units), s)
          else elim (insert_receipt receipt s.payment_receipts) [
            | none ↦ (rejected (replay_detected none), s)
            | some receipts ↦
                (reserved receipt, record { replay_nonces = nonces; payment_receipts = receipts })
          ]
    ]

-- `none` is the error that `createProvisionalReceipt` throws on.
unfoldable pub create_provisional_receipt :
    Request → String → ℕ → List ReceiptRow → Option ReceiptRow × List ReceiptRow
unfolding new_receipt
create_provisional_receipt q receipt_id now rows =
    let receipt = new_receipt q receipt_id now in
    elim (insert_receipt receipt rows) [
      | none ↦ (
        or_else (get_receipt_by_verifier_reference q.verifier_reference rows)
            (get_receipt_by_proof_id q.proof_id rows),
        rows,
      )
      | some rows' ↦ (some receipt, rows')
    ]
