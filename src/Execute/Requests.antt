-- ===== src/Execute/Requests.antt =====
-- What `executeTool` of mcp-server.mjs takes and answers. The circumstances of a call are what the
-- calls between its awaits answer: the verifier of payments, the first error of the rate limit, the
-- entitlement token and the caller's identity, the tool's handler, and the calls of others that run
-- meanwhile; and the texts of the envelopes.
use infopunks_trust_layer_ag.Base.{ℕ, String, Bool, Option, some, List}
use infopunks_trust_layer_ag.Base.Json.{Json, Fields}
use infopunks_trust_layer_ag.Storage.Tables.{Payments}
use infopunks_trust_layer_ag.Storage.Journal.{UsageRow, RequestLogRow, LedgerRow}
use infopunks_trust_layer_ag.Guard.Record.{Claim}
use infopunks_trust_layer_ag.Guard.Store.{IdempotencyRow}
use infopunks_trust_layer_ag.Authorize.Requests.{PaidCall, Outside, Billed}

-- An error as it is caught: its code and status may be missing.
pub record ToolError : Type 0 where
  pub code : Option String
  pub message : String
  pub status : Option ℕ

abbrev pub adapter_error : String → String → ℕ → ToolError
adapter_error code message status = record {
  code = some code;
  message = message;
  status = some status;
}

pub data Executed : Type 0 where
  answered : Json → Executed
  failed : ToolError → Executed

pub data Handled : Type 0 where
  no_handler : Handled
  handled : Json → Handled
  handler_failed : ToolError → Handled

pub record ToolCall : Type 0 where
  pub tool_name : String
  pub metered : Bool
  pub paid_call : PaidCall
  pub idempotency_key : String
  pub request_hash : String
  pub nonce : Option String
  pub timestamp_ms : Option ℕ
  pub payer : Option String
  pub caller_subject_id : Option String
  pub subject_id : Option String
  pub request_id : Option String

pub record AdapterTables : Type 0 where
  pub payments : Payments
  pub paid_idempotency : List IdempotencyRow
  pub usage : List UsageRow
  pub billing_ledger : List LedgerRow
  pub request_log : List RequestLogRow

-- `now` is the clock, which is read once here; the price and the address of the asset are those of the
-- configuration.
pub record Circumstances : Type 0 where
  pub now : ℕ
  pub gate : Option ToolError
  pub outside : Outside
  pub handling : Handled
  pub while_handling : AdapterTables → AdapterTables
  pub internal_trace_id : Option String
  pub usage_id : String
  pub ledger_id : String
  pub log_id : String
  pub latency_ms : ℕ
  pub price_atomic : Option String
  pub payment_asset_address : Option String
  pub success_fields : Billed → Json → Fields
  pub error_fields : ToolError → Fields

abbrev pub tool_claim : ToolCall → Option String → Claim
tool_claim call mode = record {
  key = call.idempotency_key;
  request_hash = call.request_hash;
  payer = call.payer;
  subject_id = call.subject_id;
  nonce = call.nonce;
  mode = mode;
}
