-- ===== src/Execute/Tests.antt =====
-- A call of a tool that is repeated, and the theorem about it applied to it.
use infopunks_trust_layer_ag.Base.{ℕ, ◌≡◌, refl, true, false, Option, none, some, []}
use infopunks_trust_layer_ag.Base.Json.{null, text, no_fields, field}
use infopunks_trust_layer_ag.Guard.Store.{get_idempotency_record}
use infopunks_trust_layer_ag.Authorize.Requests.{PaymentConfig, Outside}
use infopunks_trust_layer_ag.Authorize.Payment.{Payment}
use infopunks_trust_layer_ag.Execute.Requests.{
  ToolError, Handled, no_handler, handled, ToolCall, AdapterTables, Circumstances,
}
use infopunks_trust_layer_ag.Execute.Tool.{is_outdated, execute_tool}
use infopunks_trust_layer_ag.Execute.Repeat.{After, execute_tool-After}
use infopunks_trust_layer_ag.Base.{◌∷◌, to_lower_case, map}
use infopunks_trust_layer_ag.Base.Json.{object}
use infopunks_trust_layer_ag.Execute.Requests.{adapter_error, answered}
use infopunks_trust_layer_ag.Execute.Cached.{in_progress, cached_answer}
use infopunks_trust_layer_ag.Execute.Notes.{note_success, usage_row}
use infopunks_trust_layer_ag.Execute.Tool.{
  run_tool, pay_and_handle, after_payment, after_handler, finalize,
}
use infopunks_trust_layer_ag.Guard.Store.{reserve_idempotency_key, idempotency_row, record_of}
use infopunks_trust_layer_ag.Storage.Journal.{record_billing_ledger_entry}
use infopunks_trust_layer_ag.Storage.Tables.{
  replay_clash, receipt_clash, insert_replay_nonce, insert_receipt, insert_unique, day_prefix,
}
use infopunks_trust_layer_ag.Storage.Replay.{
  build_payment_fingerprint, delete_expired, existing_replay, replay_row, assert_not_replay,
}
use infopunks_trust_layer_ag.Storage.Receipts.{
  is_counted, spent_units, spend_by_day, get_receipt_by_id, merge_entry, merge_metadata,
  update_receipt_metadata,
}
use infopunks_trust_layer_ag.Storage.Reserve.{new_receipt, reserve_paid_operation}
use infopunks_trust_layer_ag.Entitlement.Scopes.{is_space, trim_start, trim_end, trim}
use infopunks_trust_layer_ag.Authorize.Payment.{normalize_network, given, proof_of, derive_nonce}
use infopunks_trust_layer_ag.Authorize.Service.{
  required_units, payer_of, supported_networks_of, effective_network, payment_guard, request_of,
  settle_receipt, bill_verified, authorize_and_bill,
}

abbrev config : PaymentConfig
config = record {
  required_default = true;
  facilitator_provider = none;
  pay_to = none;
  price = null;
  price_usd = null;
  price_per_unit_atomic = null;
  accepted_assets = none;
  supported_networks = none;
  require_payment_asset = false;
  require_payment_network = false;
  daily_spend_limit_units = 10;
  replay_window_seconds = 60;
}

abbrev payment : Payment
payment = record {
  payer = some "agent_1";
  nonce = some "n1";
  proof_id = none;
  verifier_reference = none;
  session_id = none;
  asset = none;
  network = none;
  authorization_nonce = none;
  payload_proof_id = none;
  requirements_asset = none;
  requirements_network = none;
}

abbrev call_at : ℕ → ToolCall
call_at now = record {
  tool_name = "resolve_trust";
  metered = true;
  paid_call = record {
    operation = "resolve_trust";
    payment = payment;
    fallback_payer = none;
    spend_limit_units = none;
    adapter_trace_id = none;
    entitlement_payer = none;
    entitlement_session_id = none;
  };
  idempotency_key = "k1";
  request_hash = "h1";
  nonce = some "n1";
  timestamp_ms = some now;
  payer = some "agent_1";
  caller_subject_id = none;
  subject_id = some "agent_2";
  request_id = none;
}

abbrev outside : Outside
outside = record {
  verification = record {
    ok = true;
    reason = none;
    nonce = none;
    proof_id = some "p1";
    session_id = none;
    payer = none;
    verifier_reference = none;
    settlement_status = none;
    details = null;
    extension_diagnostics = none;
  };
  while_verifying = λ t. t;
  readings = record { receipt_id = "xmr_1"; now = 5000; replay_now = 5000; expiry_base = 5000 };
  settlement = none;
  while_settling = λ t. t;
  described_at = 5000;
  spend_now = 5000;
}

abbrev circumstances : Option ToolError → ℕ → Handled → Circumstances
circumstances gate now handling = record {
  now = now;
  gate = gate;
  outside = outside;
  handling = handling;
  while_handling = λ t. t;
  internal_trace_id = none;
  usage_id = "use_1";
  ledger_id = "led_1";
  log_id = "log_1";
  latency_ms = 12;
  price_atomic = none;
  payment_asset_address = none;
  success_fields = λ b value. field "data" value no_fields;
  error_fields = λ e. field "message" (text e.message) no_fields;
}

abbrev empty : AdapterTables
empty = record {
  payments = record { replay_nonces = []; payment_receipts = [] };
  paid_idempotency = [];
  usage = [];
  billing_ledger = [];
  request_log = [];
}

-- The call is answered, and its repetition two seconds later, with no handler, is too.
execute_tool-After_example :
    let first =
      execute_tool config none 120
        (call_at 5000)
        (circumstances none 5000 (handled (text "trusted")))
        empty in
    let second =
      execute_tool config none 120 (call_at 7000) (circumstances none 7000 no_handler) first.1 in
    (second.1 ≡ first.1)
    × After (circumstances none 5000 (handled (text "trusted"))) first.0 second.0
unfolding is_outdated get_idempotency_record
execute_tool-After_example =
    execute_tool-After config none 120 (call_at 5000) (call_at 7000)
      (circumstances none 5000 (handled (text "trusted"))) (circumstances none 7000 no_handler)
      empty
      (execute_tool config none 120 (call_at 5000)
        (circumstances none 5000 (handled (text "trusted"))) empty).1
      refl refl refl (λ u. refl) refl refl refl refl refl

-- A call that is limited leaves its key claimed: trying again is refused.
limited_and_again :
    let limited = some (adapter_error "RATE_LIMITED" "Rate limit exceeded." 429) in
    let first =
      execute_tool config none 120 (call_at 5000) (circumstances limited 5000 no_handler) empty in
    (execute_tool config none 120
      (call_at 7000)
      (circumstances none 7000 (handled (text "trusted")))
      first.1).0
    ≡ in_progress
unfolding execute_tool run_tool is_outdated reserve_idempotency_key insert_unique idempotency_row
    get_idempotency_record record_of cached_answer
limited_and_again = refl

-- The first call is answered and billed.
answered_and_billed :
    let (answer, s) =
      execute_tool config none 120
        (call_at 5000)
        (circumstances none 5000 (handled (text "trusted")))
        empty in
    (answer ≡ answered (object (field "data" (text "trusted") no_fields)))
    × (map (λ r. r.billed_units) s.payments.payment_receipts ≡ 1 ∷ [])
    × (map (λ r. r.status) s.billing_ledger ≡ "paid" ∷ [])
unfolding execute_tool run_tool pay_and_handle after_payment after_handler finalize is_outdated
    note_success usage_row record_billing_ledger_entry reserve_idempotency_key insert_unique
    idempotency_row get_idempotency_record record_of authorize_and_bill bill_verified settle_receipt
    request_of payment_guard effective_network supported_networks_of payer_of required_units
    derive_nonce proof_of given normalize_network trim trim_start trim_end is_space
    reserve_paid_operation new_receipt insert_receipt insert_replay_nonce replay_clash receipt_clash
    assert_not_replay delete_expired build_payment_fingerprint replay_row existing_replay
    spend_by_day spent_units is_counted day_prefix update_receipt_metadata get_receipt_by_id
    merge_metadata merge_entry to_lower_case
answered_and_billed = (refl, refl, refl)
