-- ===== src/Authorize/Tests.antt =====
-- Concrete paid calls, and the theorems about them applied to these.
use infopunks_trust_layer_ag.Base.{
  ℕ, ◌≡◌, refl, String, true, none, some, arith, to_lower_case, to_upper_case,
}
use infopunks_trust_layer_ag.Base.Json.{null}
use infopunks_trust_layer_ag.Storage.Tables.{
  replay_clash, receipt_clash, insert_replay_nonce, insert_receipt, day_prefix,
}
use infopunks_trust_layer_ag.Storage.Replay.{
  build_payment_fingerprint, delete_expired, existing_replay, replay_row, assert_not_replay,
}
use infopunks_trust_layer_ag.Storage.Receipts.{
  is_counted, spent_units, spend_by_day, get_receipt_by_id, merge_entry, merge_metadata,
  update_receipt_metadata,
}
use infopunks_trust_layer_ag.Storage.Reserve.{Readings, new_receipt, reserve_paid_operation}
use infopunks_trust_layer_ag.Entitlement.Scopes.{is_space, trim_start, trim_end, trim}
use infopunks_trust_layer_ag.Billing.History.{step, run, no_payments}
use infopunks_trust_layer_ag.Billing.Replays.{row_of}
use infopunks_trust_layer_ag.Authorize.Payment.{
  Payment, normalize_network, given, proof_of, derive_nonce,
}
use infopunks_trust_layer_ag.Authorize.Assets.{
  is_hex_digit, hex_digits, address_digits, is_hex_address, normalize_address,
  canonical_address_for_symbol, asset_address_for_symbol, normalize_configured_assets,
  is_accepted_asset,
}
use infopunks_trust_layer_ag.Authorize.Requests.{
  PaymentConfig, PaidCall, Verification, Outside, thrown,
}
use infopunks_trust_layer_ag.Authorize.Service.{
  required_units, payer_of, supported_networks_of, effective_network, payment_guard,
  reservation_error, request_of, settle_receipt, bill_verified, authorize_and_bill,
}
use infopunks_trust_layer_ag.Authorize.Once.{Reports, authorize_and_bill-Reports}
use infopunks_trust_layer_ag.Authorize.Grants.{Bills, authorize_and_bill-Bills}

-- The code that a paid call runs.
paid_code : Unit {0}
unfolding authorize_and_bill bill_verified settle_receipt request_of reservation_error payment_guard
    effective_network supported_networks_of payer_of required_units is_accepted_asset
    normalize_configured_assets asset_address_for_symbol canonical_address_for_symbol
    normalize_address is_hex_address address_digits hex_digits is_hex_digit derive_nonce proof_of
    given normalize_network trim trim_start trim_end is_space reserve_paid_operation new_receipt
    insert_receipt insert_replay_nonce replay_clash receipt_clash assert_not_replay delete_expired
    build_payment_fingerprint replay_row existing_replay spend_by_day spent_units is_counted
    day_prefix update_receipt_metadata get_receipt_by_id merge_metadata merge_entry step run
    to_lower_case to_upper_case row_of
paid_code = tt

abbrev payment : Payment
payment = record {
  payer = some "agent_1";
  nonce = some " n1 ";
  proof_id = none;
  verifier_reference = none;
  session_id = none;
  asset = some "0x036CBD53842C5426634E7929541EC2318F3DCF7E";
  network = some "Base-Sepolia";
  authorization_nonce = none;
  payload_proof_id = none;
  requirements_asset = none;
  requirements_network = none;
}

abbrev config : PaymentConfig
config = record {
  required_default = true;
  facilitator_provider = none;
  pay_to = none;
  price = null;
  price_usd = null;
  price_per_unit_atomic = null;
  accepted_assets = none;
  supported_networks = none;
  require_payment_asset = true;
  require_payment_network = true;
  daily_spend_limit_units = 10;
  replay_window_seconds = 60;
}

abbrev call : PaidCall
call = record {
  operation = "resolve_trust";
  payment = payment;
  fallback_payer = none;
  spend_limit_units = none;
  adapter_trace_id = none;
  entitlement_payer = none;
  entitlement_session_id = none;
}

abbrev answer : Verification
answer = record {
  ok = true;
  reason = none;
  nonce = none;
  proof_id = some "p1";
  session_id = none;
  payer = none;
  verifier_reference = none;
  settlement_status = none;
  details = null;
  extension_diagnostics = none;
}

abbrev at_ms : String → ℕ → Readings
at_ms id now = record { receipt_id = id; now = now; replay_now = now; expiry_base = now }

-- The settlement throws.
abbrev outside : String → ℕ → Outside
outside id now = record {
  verification = answer;
  while_verifying = λ t. t;
  readings = at_ms id now;
  settlement = none;
  while_settling = λ t. t;
  described_at = now;
  spend_now = now;
}

-- The address is that of USDC on the test network, in another case.
guard_passes : payment_guard config payment ≡ none
unfolding paid_code
guard_passes = refl

wrong_network :
    payment_guard config (record payment { network = some "eip155:8453" })
    ≡ some record {
      code = "PAYMENT_VERIFICATION_FAILED";
      message = "Unsupported payment asset.";
      status = 402;
    }
unfolding paid_code
wrong_network = refl

nonces :
    (derive_nonce payment "agent_1" "resolve_trust" ≡ "n1")
    × (derive_nonce
          (record payment { nonce = some " "; session_id = some "s" })
          "agent_1"
          "resolve_trust"
        ≡ "derived:session:s:agent_1:resolve_trust")
unfolding paid_code
nonces = (refl, refl)

replayed_error :
    (authorize_and_bill config call
      (outside "x2" 99_000)
      (authorize_and_bill config call (outside "x1" 1000) no_payments).1).0
    ≡ thrown record {
      code = "REPLAY_DETECTED";
      message = "Payment proof/session replay detected.";
      status = 409;
    }
unfolding paid_code
replayed_error = refl

authorize_and_bill-Reports_example :
    Reports config call
      (outside "x1" 1000)
      no_payments
      (authorize_and_bill config call (outside "x1" 1000) no_payments)
authorize_and_bill-Reports_example =
    authorize_and_bill-Reports config call (outside "x1" 1000) no_payments

authorize_and_bill-Bills_example :
    Bills 1 "x1" (authorize_and_bill config call (outside "x1" 1000) no_payments).0
unfolding paid_code
authorize_and_bill-Bills_example =
    authorize_and_bill-Bills config call (outside "x1" 1000) no_payments refl refl refl record {
      fingerprint = "proof:p1";
      named = refl;
      unseen = refl;
      within = omega arith;
      unbilled = refl;
    }
