-- ===== src/Authorize/Requests.antt =====
-- What a paid call carries, what it reads from outside, and what it is answered (entitlements.mjs,
-- error-schema.mjs).
use infopunks_trust_layer_ag.Base.{ℕ, String, Bool, Option, List}
use infopunks_trust_layer_ag.Base.Json.{Json}
use infopunks_trust_layer_ag.Storage.Tables.{ReceiptRow, Metadata, Payments}
use infopunks_trust_layer_ag.Storage.Receipts.{SpendState}
use infopunks_trust_layer_ag.Storage.Reserve.{Readings}
use infopunks_trust_layer_ag.Authorize.Payment.{Payment}
use infopunks_trust_layer_ag.Authorize.Diagnostics.{Diagnostics}

-- The `x402…` fields of the configuration.
pub record PaymentConfig : Type 0 where
  pub required_default : Bool
  pub facilitator_provider : Option String
  pub pay_to : Option String
  pub price : Json
  pub price_usd : Json
  pub price_per_unit_atomic : Json
  pub accepted_assets : Option (List String)
  pub supported_networks : Option (List String)
  pub require_payment_asset : Bool
  pub require_payment_network : Bool
  pub daily_spend_limit_units : ℕ
  pub replay_window_seconds : ℕ

pub record PaidCall : Type 0 where
  pub operation : String
  pub payment : Payment
  pub fallback_payer : Option String
  pub spend_limit_units : Option ℕ
  pub adapter_trace_id : Option String
  pub entitlement_payer : Option String
  pub entitlement_session_id : Option String

-- The answer of `verifier.verify`; `details` is null or an object.
pub record Verification : Type 0 where
  pub ok : Bool
  pub reason : Option String
  pub nonce : Option String
  pub proof_id : Option String
  pub session_id : Option String
  pub payer : Option String
  pub verifier_reference : Option String
  pub settlement_status : Option String
  pub details : Json
  pub extension_diagnostics : Option Diagnostics

-- The answer of `verifier.settle`.
pub record Settled : Type 0 where
  pub settlement_status : Option String
  pub extension_diagnostics : Option Diagnostics

-- What the call reads from outside. `settlement` is `none` if `settle` throws.
pub record Outside : Type 0 where
  pub verification : Verification
  pub while_verifying : Payments → Payments
  pub readings : Readings
  pub settlement : Option Settled
  pub while_settling : Payments → Payments
  pub described_at : ℕ
  pub spend_now : ℕ

pub record AdapterError : Type 0 where
  pub code : String
  pub message : String
  pub status : ℕ

pub record PaidReceipt : Type 0 where
  pub receipt : ReceiptRow
  pub facilitator_provider : String
  pub network : String
  pub pay_to : Option String
  pub price : Json
  pub asset : Option String
  pub extension_diagnostics : Metadata

pub record Billed : Type 0 where
  pub billed_units : ℕ
  pub payer : String
  pub payment_receipt_id : Option String
  pub x402_receipt : Option PaidReceipt
  pub spend_controls : SpendState

pub data Authorization : Type 0 where
  authorized : Billed → Authorization
  thrown : AdapterError → Authorization
