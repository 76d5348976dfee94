-- ===== src/Execute/Notes.antt =====
-- What a call of a tool writes after its handler: the settlement of the receipt, the usage, the ledger
-- and the log.
use infopunks_trust_layer_ag.Base.{
  String, ◌&&◌, Option, none, some, truthy, text_of, get_or_else, or_else, if◌then◌else◌,
}
use infopunks_trust_layer_ag.Base.Json.{text, object, no_fields, field}
use infopunks_trust_layer_ag.Storage.Receipts.{set_receipt_internal_trace}
use infopunks_trust_layer_ag.Storage.Settlement.{update_receipt_settlement}
use infopunks_trust_layer_ag.Storage.Journal.{
  UsageRow, record_tool_usage, record_request_log, record_billing_ledger_entry,
}
use infopunks_trust_layer_ag.Authorize.Requests.{Billed, PaidReceipt}
use infopunks_trust_layer_ag.Authorize.Diagnostics.{nullable}
use infopunks_trust_layer_ag.Execute.Requests.{ToolError, ToolCall, AdapterTables, Circumstances}

unfoldable pub usage_row : ToolCall → Circumstances → Billed → String → UsageRow
usage_row call env b status = record {
  usage_id = env.usage_id;
  adapter_trace_id = call.paid_call.adapter_trace_id;
  tool_name = call.tool_name;
  payer = some b.payer;
  caller_subject_id = call.caller_subject_id;
  target_subject_id = call.subject_id;
  billed_units = b.billed_units;
  receipt_id = b.payment_receipt_id;
  usage_status = status;
  created_at = env.now;
  updated_at = none;
}

abbrev network_of : Option PaidReceipt → Option String
network_of none = none
network_of (some r) = some r.network

abbrev asset_in : Option PaidReceipt → Option String
asset_in none = none
asset_in (some r) = r.asset

abbrev reference_in : Option PaidReceipt → Option String
reference_in none = none
reference_in (some r) = r.receipt.verifier_reference

-- A handler that fails: the receipt is set to failed, and the call is noted.
unfoldable pub note_failure :
    ToolCall → Circumstances → Billed → ToolError → AdapterTables → AdapterTables
note_failure call env b e s = record s {
  payments =
      if truthy b.payment_receipt_id
      then record s.payments {
        payment_receipts =
            (update_receipt_settlement
              record {
                receipt_id = b.payment_receipt_id;
                verifier_reference = reference_in b.x402_receipt;
                receipt_status = "failed";
                settlement_status = "failed";
                settled_at = none;
                reversed_at = none;
                last_error = some (get_or_else e.code e.message);
              }
              env.now s.payments.payment_receipts).1;
      }
      else s.payments;
  usage = record_tool_usage (usage_row call env b "failed") env.now s.usage;
}

-- A handler that answers: the trace on the receipt, the usage, the ledger and the log.
unfoldable pub note_success : ToolCall → Circumstances → Billed → AdapterTables → AdapterTables
note_success call env b s = record {
  payments =
      if truthy b.payment_receipt_id && truthy env.internal_trace_id
      then record s.payments {
        payment_receipts =
            set_receipt_internal_trace (text_of b.payment_receipt_id) env.internal_trace_id env.now
              s.payments.payment_receipts;
      }
      else s.payments;
  paid_idempotency = s.paid_idempotency;
  usage = record_tool_usage (usage_row call env b "accepted") env.now s.usage;
  billing_ledger =
      if truthy b.payment_receipt_id
      then record_billing_ledger_entry
          record {
            adapter_trace_id = call.paid_call.adapter_trace_id;
            request_id = call.request_id;
            tool_name = call.tool_name;
            payer = some b.payer;
            subject_id = call.subject_id;
            billed_units = some b.billed_units;
            receipt_id = b.payment_receipt_id;
            network = network_of b.x402_receipt;
            asset = or_else (asset_in b.x402_receipt) env.payment_asset_address;
            price_atomic = env.price_atomic;
            status = some "paid";
          }
          env.ledger_id env.now s.billing_ledger
      else s.billing_ledger;
  request_log =
      record_request_log
        record {
          log_id = env.log_id;
          adapter_trace_id = call.paid_call.adapter_trace_id;
          tool_name = some call.tool_name;
          status_code = some 200;
          error_code = none;
          latency_ms = some env.latency_ms;
          billed_units = some b.billed_units;
          receipt_id = b.payment_receipt_id;
          internal_trace_id = env.internal_trace_id;
          details = object (
              field "operation" (text call.paid_call.operation)
                (field "verifier_reference" (nullable (reference_in b.x402_receipt)) no_fields));
          created_at = env.now;
        }
        s.request_log;
}
