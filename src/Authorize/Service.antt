-- ===== src/Authorize/Service.antt =====
-- `EntitlementService.authorizeAndBill` of entitlements.mjs, over the tables of the state store. The
-- answers of the payment verifier are arguments, and so are the writes of other calls while this
-- one waits for them. Logs, metrics and the details of errors are left out.
use infopunks_trust_layer_ag.Base.{
  ℕ, String, not, ◌&&◌, ◌||◌, Option, none, some, List, [], ◌∷◌, ◌++◌, ◌==◌, ◌^^◌, eqb, truthy,
  text_of, or_else, get_or_else, is_some, if◌then◌else◌,
}
use infopunks_trust_layer_ag.Base.Json.{Json, text, object, no_fields, or_json}
use infopunks_trust_layer_ag.Storage.Tables.{ReceiptRow, Metadata, Payments}
use infopunks_trust_layer_ag.Storage.Replay.{
  Refusal, identity_missing, replay_detected, spend_exceeded,
}
use infopunks_trust_layer_ag.Storage.Receipts.{spend_state, update_receipt_metadata}
use infopunks_trust_layer_ag.Storage.Reserve.{Request, reserved, rejected, reserve_paid_operation}
use infopunks_trust_layer_ag.Entitlement.Scopes.{includes}
use infopunks_trust_layer_ag.Authorize.Payment.{
  Payment, normalize_network, derive_nonce, payment_asset, payment_network,
}
use infopunks_trust_layer_ag.Authorize.Requests.{
  PaymentConfig, PaidCall, Verification, Settled, Outside, AdapterError, PaidReceipt, Authorization,
  authorized, thrown,
}
use infopunks_trust_layer_ag.Authorize.Assets.{is_accepted_asset, asset_address_for_symbol}
use infopunks_trust_layer_ag.Authorize.Diagnostics.{
  Diagnostics, missing, no_diagnostics, nullable, merge_bazaar_extension_diagnostics,
}

-- `TOOL_PRICING`
unfoldable pub required_units : String → ℕ
required_units operation = if operation == "resolve_trust" then 1 else 0

unfoldable pub payer_of : PaidCall → String
payer_of call =
    get_or_else (or_else call.payment.payer (or_else call.fallback_payer call.entitlement_payer))
      "anonymous"

abbrev pub accepted_assets_of : PaymentConfig → List String
accepted_assets_of config = get_or_else config.accepted_assets ("USDC" ∷ [])

abbrev normalize_all : List String → List String
normalize_all [] = []
normalize_all (n ∷ ns) = elim (normalize_network (some n)) [
  | none ↦ normalize_all ns
  | some network ↦ network ∷ normalize_all ns
]

unfoldable pub supported_networks_of : PaymentConfig → List String
supported_networks_of config =
    normalize_all (get_or_else config.supported_networks ("eip155:84532" ∷ []))

abbrev pub first_of : List String → Option String
first_of [] = none
first_of (x ∷ xs) = some x

unfoldable pub effective_network : PaymentConfig → Payment → String
effective_network config p =
    get_or_else (or_else (payment_network p) (first_of (supported_networks_of config)))
      "eip155:84532"

abbrev failed_verification : String → Option AdapterError
failed_verification message =
    some record { code = "PAYMENT_VERIFICATION_FAILED"; message = message; status = 402 }

-- The tests of asset and network before the verifier is asked: the first that fails.
unfoldable pub payment_guard : PaymentConfig → Payment → Option AdapterError
payment_guard config p =
    if config.require_payment_asset && not (truthy (payment_asset p))
    then failed_verification "Payment asset is required."
    else if truthy (payment_asset p)
        && not (
            is_accepted_asset (text_of (payment_asset p)) (effective_network config p)
              (accepted_assets_of config))
    then failed_verification "Unsupported payment asset."
    else if config.require_payment_network && not (is_some (payment_network p))
    then failed_verification "Payment network is required."
    else if is_some (payment_network p)
        && not (includes (text_of (payment_network p)) (supported_networks_of config))
    then failed_verification "Unsupported payment network."
    else none

unfoldable pub verification_error : String → Option String → AdapterError
verification_error operation reason = record {
  code = get_or_else reason "PAYMENT_VERIFICATION_FAILED";
  message =
      if text_of reason == "ENTITLEMENT_REQUIRED"
      then "Valid x402 entitlement required for " ^^ operation ^^ "."
      else "x402 payment verification failed for " ^^ operation ^^ ".";
  status = 402;
}

unfoldable pub reservation_error : Refusal → AdapterError
reservation_error (replay_detected row) = record {
  code = "REPLAY_DETECTED";
  message = "Payment proof/session replay detected.";
  status = 409;
}
reservation_error (spend_exceeded current projected limit) = record {
  code = "ENTITLEMENT_REQUIRED";
  message = "x402 spend controls blocked this call.";
  status = 402;
}
reservation_error identity_missing = record {
  code = "PAYMENT_VERIFICATION_FAILED";
  message = "Payment reservation failed.";
  status = 402;
}

abbrev provider_of : PaymentConfig → String
provider_of config = get_or_else config.facilitator_provider "openfacilitator"

abbrev price_of : PaymentConfig → Json
price_of config = or_json config.price (or_json config.price_usd config.price_per_unit_atomic)

unfoldable pub asset_of : PaymentConfig → Payment → Option String
asset_of config p =
    let first = first_of (accepted_assets_of config) in
    or_else (payment_asset p)
      (or_else (asset_address_for_symbol (text_of first) (effective_network config p)) first)

abbrev verify_diagnostics : Verification → Diagnostics
verify_diagnostics v = get_or_else v.extension_diagnostics missing

abbrev status_or_provisional : Option String → String
status_or_provisional status = get_or_else status "provisional"

-- The arguments of `reservePaidOperation`.
unfoldable pub request_of : PaymentConfig → PaidCall → Verification → Request
request_of config call v = record {
  nonce = some (get_or_else v.nonce (derive_nonce call.payment (payer_of call) call.operation));
  proof_id = v.proof_id;
  session_id = or_else v.session_id call.entitlement_session_id;
  payer = get_or_else v.payer (payer_of call);
  tool_name = call.operation;
  replay_window_seconds = config.replay_window_seconds;
  verifier_reference = v.verifier_reference;
  billed_units = required_units call.operation;
  adapter_trace_id = call.adapter_trace_id;
  metadata =
      ("verifier_details", or_json v.details (object no_fields))
      ∷ ("settlement_status", text (status_or_provisional v.settlement_status))
      ∷ ("facilitator_provider", text (provider_of config))
      ∷ ("network", text (effective_network config call.payment))
      ∷ ("payTo", nullable config.pay_to)
      ∷ ("price", price_of config)
      ∷ ("asset", nullable (asset_of config call.payment))
      ∷ merge_bazaar_extension_diagnostics (verify_diagnostics v) no_diagnostics;
  spend_limit_units = get_or_else call.spend_limit_units config.daily_spend_limit_units;
}

abbrev merged_diagnostics : Verification → Settled → Metadata
merged_diagnostics v answer =
    merge_bazaar_extension_diagnostics (verify_diagnostics v)
      (get_or_else answer.extension_diagnostics missing)

-- What `updateReceiptMetadata` is given after the settlement.
unfoldable pub settlement_patch : Verification → Settled → Metadata
settlement_patch v answer =
    merged_diagnostics v answer
    ++ (
      "settlement_status",
      text (status_or_provisional (or_else answer.settlement_status v.settlement_status)),
    )
      ∷ []

-- `settle` and what follows it: a settlement that throws is logged, and the call goes on.
unfoldable pub settle_receipt :
    Outside → ReceiptRow → Payments → (Metadata × Option String) × Payments
settle_receipt env receipt s =
    let v = env.verification in
    let s' = env.while_settling s in
    elim env.settlement [
      | none ↦
          ((merge_bazaar_extension_diagnostics (verify_diagnostics v) no_diagnostics, none), s')
      | some answer ↦ (
        (merged_diagnostics v answer, answer.settlement_status),
        record s' {
          payment_receipts =
              (update_receipt_metadata (some receipt.receipt_id) (settlement_patch v answer)
                env.described_at s'.payment_receipts).1;
        },
      )
    ]

unfoldable pub billed_receipt :
    PaymentConfig → PaidCall → Verification → ReceiptRow → Metadata × Option String → PaidReceipt
billed_receipt config call v receipt (diagnostics, settled) = record {
  receipt = record receipt {
    settlement_status = get_or_else (or_else settled v.settlement_status) receipt.settlement_status;
  };
  facilitator_provider = provider_of config;
  network = effective_network config call.payment;
  pay_to = config.pay_to;
  price = price_of config;
  asset = asset_of config call.payment;
  extension_diagnostics = diagnostics;
}

-- From the reservation on, once the payment is verified.
unfoldable pub bill_verified :
    PaymentConfig → PaidCall → Outside → Payments → Authorization × Payments
bill_verified config call env s =
    let (reservation, s') =
      reserve_paid_operation (request_of config call env.verification) env.readings s in
    elim reservation [
      | rejected why ↦ (thrown (reservation_error why), s')
      | reserved receipt ↦
          let (settled, s'') = settle_receipt env receipt s' in
          (
            authorized record {
              billed_units = required_units call.operation;
              payer = receipt.payer;
              payment_receipt_id = some receipt.receipt_id;
              x402_receipt = some (billed_receipt config call env.verification receipt settled);
              spend_controls = spend_state receipt.payer env.spend_now s''.payment_receipts;
            },
            s'',
          )
    ]

unfoldable pub authorize_and_bill :
    PaymentConfig → PaidCall → Outside → Payments → Authorization × Payments
authorize_and_bill config call env s =
    if eqb (required_units call.operation) 0 || not config.required_default
    then (
      authorized record {
        billed_units = 0;
        payer = payer_of call;
        payment_receipt_id = none;
        x402_receipt = none;
        spend_controls = spend_state (payer_of call) env.spend_now s.payment_receipts;
      },
      s,
    )
    else elim (payment_guard config call.payment) [
      | some error ↦ (thrown error, s)
      | none ↦
          let s' = env.while_verifying s in
          if not env.verification.ok
          then (thrown (verification_error call.operation env.verification.reason), s')
          else bill_verified config call env s'
    ]
