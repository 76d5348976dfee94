-- ===== src/Billing/Tests.antt =====
-- The payment tables on concrete requests, and the theorems about them applied to these.
use infopunks_trust_layer_ag.Base.{ℕ, ◌≡◌, refl, inl, String, none, some, List, [], ◌∷◌, arith}
use infopunks_trust_layer_ag.Storage.Tables.{
  ReceiptRow, Payments, replay_clash, receipt_clash, insert_replay_nonce, insert_receipt,
  day_prefix,
}
use infopunks_trust_layer_ag.Storage.Replay.{
  Refusal, spend_exceeded, build_payment_fingerprint, delete_expired, existing_replay, replay_row,
  assert_not_replay,
}
use infopunks_trust_layer_ag.Storage.Receipts.{
  is_counted, spent_units, spend_by_day, get_receipt_by_id, get_receipt_by_verifier_reference,
}
use infopunks_trust_layer_ag.Storage.Reserve.{
  Request, Readings, reserved, rejected, new_receipt, reserve_paid_operation,
}
use infopunks_trust_layer_ag.Storage.Settlement.{
  settle_row, settle_guard, is_changed, current_receipt, is_target, update_receipt_settlement,
}
use infopunks_trust_layer_ag.Reconcile.Mapping.{
  Payload, payload_status, map_status, map_settlement, status_rank, is_downgrade,
}
use infopunks_trust_layer_ag.Reconcile.Apply.{existing_receipt, apply_settlement_event}
use infopunks_trust_layer_ag.Base.{to_lower_case}
use infopunks_trust_layer_ag.Billing.History.{Call, reserve, settle, step, run, no_payments}
use infopunks_trust_layer_ag.Billing.Reservations.{Charges, reserve_paid_operation-Charges}
use infopunks_trust_layer_ag.Billing.Window.{replay_window}

-- Everything that a run of the payment tables calls.
payment_code : Unit {0}
unfolding step run reserve_paid_operation new_receipt insert_receipt insert_replay_nonce
    replay_clash receipt_clash assert_not_replay delete_expired build_payment_fingerprint replay_row
    existing_replay spend_by_day spent_units is_counted day_prefix apply_settlement_event
    existing_receipt update_receipt_settlement current_receipt is_target settle_guard settle_row
    is_changed map_settlement map_status payload_status status_rank is_downgrade to_lower_case
    get_receipt_by_id get_receipt_by_verifier_reference
payment_code = tt

abbrev request : String → ℕ → Request
request proof units = record {
  nonce = some "n1";
  proof_id = some proof;
  session_id = none;
  payer = "agent_1";
  tool_name = "resolve_trust";
  replay_window_seconds = 60;
  verifier_reference = none;
  billed_units = units;
  adapter_trace_id = none;
  metadata = [];
  spend_limit_units = 10;
}

abbrev at_ms : String → ℕ → Readings
at_ms id now = record { receipt_id = id; now = now; replay_now = now; expiry_base = now }

abbrev paid : Payload
paid = record {
  status = some "PAID";
  settlement_status = none;
  verifier_reference = none;
  receipt_reference = none;
  receipt_id = some "x1";
  reason = none;
}

abbrev first : Call
first = reserve (request "p1" 4) (at_ms "x1" 1000)

abbrev one_receipt : Payments
one_receipt = step first no_payments

abbrev settling : List Call
settling = settle paid 2000 2000 ∷ []

abbrev billed : ReceiptRow
billed = new_receipt (request "p1" 4) "x1" 1000

first_reserved :
    (reserve_paid_operation (request "p1" 4) (at_ms "x1" 1000) no_payments).0 ≡ reserved billed
unfolding payment_code
first_reserved = refl

over_limit :
    (reserve_paid_operation
      (record (request "p2" 7) { nonce = some "n2" })
      (at_ms "x2" 3000)
      one_receipt).0
    ≡ rejected (spend_exceeded 4 11 10)
unfolding payment_code
over_limit = refl

reserve_paid_operation-Charges_example :
    Charges
      (request "p1" 4)
      (at_ms "x1" 1000)
      no_payments
      (reserve_paid_operation (request "p1" 4) (at_ms "x1" 1000) no_payments)
reserve_paid_operation-Charges_example =
    reserve_paid_operation-Charges (request "p1" 4) (at_ms "x1" 1000) no_payments

replay_window_example :
    (why : Refusal) × (reserve_paid_operation
        (request "p9" 1)
        (at_ms "x3" 61_000)
        (run settling (step (reserve (request "p1" 4) (at_ms "x1" 1000)) no_payments))
      ≡ (
        rejected why,
        run settling (step (reserve (request "p1" 4) (at_ms "x1" 1000)) no_payments),
      ))
replay_window_example =
    replay_window (request "p1" 4) (request "p9" 1) (at_ms "x1" 1000) (at_ms "x3" 61_000)
      no_payments settling first_reserved (inl ("n1", refl, refl)) (tt, tt) (omega arith)
