-- ===== src/Execute/Tool.antt =====
-- `executeTool` of mcp-server.mjs, over the tables of the state store. The feed of the war room is
-- left out.
use infopunks_trust_layer_ag.Base.{
  ◌^^◌, ℕ, ◌+◌, ◌-◌, ◌*◌, String, Bool, true, false, not, ◌&&◌, Option, none, some, ltb,
  get_or_else, if◌then◌else◌,
}
use infopunks_trust_layer_ag.Base.Json.{Json, object}
use infopunks_trust_layer_ag.Guard.Record.{Result, granted, conflict}
use infopunks_trust_layer_ag.Guard.Store.{reserve_idempotency_key, finalize_idempotency_key}
use infopunks_trust_layer_ag.Authorize.Requests.{
  PaymentConfig, AdapterError, Authorization, Billed, authorized, thrown,
}
use infopunks_trust_layer_ag.Authorize.Service.{authorize_and_bill}
use infopunks_trust_layer_ag.Execute.Requests.{
  ToolError, adapter_error, Executed, answered, failed, Handled, no_handler, handled,
  handler_failed, ToolCall, AdapterTables, Circumstances, tool_claim,
}
use infopunks_trust_layer_ag.Execute.Notes.{note_failure, note_success}
use infopunks_trust_layer_ag.Execute.Cached.{cached_answer}

-- `!Number.isFinite(timestampMs) || Math.abs(nowMs - timestampMs) > windowMs`
unfoldable pub is_outdated : ℕ → ℕ → Option ℕ → Bool
is_outdated window_seconds now none = true
is_outdated window_seconds now (some t) = ltb (window_seconds * 1000) ((now - t) + (t - now))

-- `finalizeIdempotencyKey` for a call that is guarded.
unfoldable pub finalize : Bool → Result → ℕ → AdapterTables → AdapterTables
finalize guarded r now s =
    if guarded
    then record s { paid_idempotency = (finalize_idempotency_key r now s.paid_idempotency).1 }
    else s

unfoldable pub error_result : ToolCall → Circumstances → ToolError → Option String → Result
error_result call env e receipt_id = record {
  key = call.idempotency_key;
  status_code = some (get_or_else e.status 500);
  response = object (env.error_fields e);
  error_code = some (get_or_else e.code "UPSTREAM_UNAVAILABLE");
  receipt_id = receipt_id;
}

abbrev pub success_result : ToolCall → Circumstances → Billed → Json → Result
success_result call env b value = record {
  key = call.idempotency_key;
  status_code = some 200;
  response = object (env.success_fields b value);
  error_code = none;
  receipt_id = b.payment_receipt_id;
}

abbrev pub tool_error_of : AdapterError → ToolError
tool_error_of e = adapter_error e.code e.message e.status

-- An error that is caught at the end is stored under the key and thrown again.
unfoldable pub fail :
    Bool
    → ToolCall
    → Circumstances
    → ToolError
    → Option String
    → AdapterTables
    → Executed × AdapterTables
fail guarded call env e receipt_id s =
    (failed e, finalize guarded (error_result call env e receipt_id) env.now s)

-- What follows the handler.
unfoldable pub after_handler :
    Bool → ToolCall → Circumstances → Billed → Handled → AdapterTables → Executed × AdapterTables
after_handler guarded call env b no_handler s =
    fail guarded call env
      (adapter_error "INVALID_INPUT" ("No handler bound for " ^^ call.tool_name ^^ ".") 500)
      b.payment_receipt_id s
after_handler guarded call env b (handler_failed e) s =
    fail guarded call env e b.payment_receipt_id (note_failure call env b e (env.while_handling s))
after_handler guarded call env b (handled value) s = (
  answered (object (env.success_fields b value)),
  finalize guarded (success_result call env b value) env.now
      (note_success call env b (env.while_handling s)),
)

unfoldable pub after_payment :
    Bool → ToolCall → Circumstances → Authorization → AdapterTables → Executed × AdapterTables
after_payment guarded call env (thrown e) s = fail guarded call env (tool_error_of e) none s
after_payment guarded call env (authorized b) s = after_handler guarded call env b env.handling s

unfoldable pub pay_and_handle :
    Bool → PaymentConfig → ToolCall → Circumstances → AdapterTables → Executed × AdapterTables
pay_and_handle guarded config call env s =
    let (authorization, payments') =
      authorize_and_bill config call.paid_call env.outside s.payments in
    after_payment guarded call env authorization (record s { payments = payments' })

-- From the rate limit on. An error of the gate is not caught: it stores nothing under the key.
unfoldable pub run_tool :
    Bool → PaymentConfig → ToolCall → Circumstances → AdapterTables → Executed × AdapterTables
run_tool guarded config call env s = elim env.gate [
  | some e ↦ (failed e, s)
  | none ↦ pay_and_handle guarded config call env s
]

unfoldable pub execute_tool :
    PaymentConfig
    → Option String
    → ℕ
    → ToolCall
    → Circumstances
    → AdapterTables
    → Executed × AdapterTables
execute_tool config mode window_seconds call env s =
    if not (call.metered && config.required_default)
    then run_tool false config call env s
    else if is_outdated window_seconds env.now call.timestamp_ms
    then (
      failed (
          adapter_error "REQUEST_TIMESTAMP_INVALID"
            "Request timestamp is outside the accepted validity window." 400),
      s,
    )
    else let (claimed, rows) =
        reserve_idempotency_key (tool_claim call mode) env.now s.paid_idempotency in
      elim claimed [
        | conflict hash ↦ (
          failed (
              adapter_error "IDEMPOTENCY_CONFLICT"
                "Idempotency key has already been used with a different request payload." 409),
          s,
        )
        | granted created existing ↦
            if created
            then run_tool true config call env (record s { paid_idempotency = rows })
            else (cached_answer existing, s)
      ]
