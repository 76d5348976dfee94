-- ===== src/Execute/Recorded.antt =====
-- A call that its gate lets through stores its result under its idempotency key.
use infopunks_trust_layer_ag.Base.{
  ◌^^◌, ℕ, ◌≡◌, ◌≢◌, refl, ◌∙◌, String, Bool, true, ◌&&◌, Option, none, some, List, eq_iff, leb,
  ltb, get_or_else,
}
use infopunks_trust_layer_ag.Base.Json.{null, object, Fields}
use infopunks_trust_layer_ag.Guard.Record.{Record, Claim, Result}
use infopunks_trust_layer_ag.Guard.Memory.{new_record, updated_record}
use infopunks_trust_layer_ag.Guard.Store.{
  IdempotencyRow, get_idempotency_record, reserve_idempotency_key, finalize_idempotency_key,
}
use infopunks_trust_layer_ag.Guard.Spec.{claim, finish, claim_answer, spec_call, store_call}
use infopunks_trust_layer_ag.Guard.Agreement.{store_call-Simulates}
use infopunks_trust_layer_ag.Authorize.Requests.{
  PaymentConfig, Billed, Authorization, authorized, thrown,
}
use infopunks_trust_layer_ag.Authorize.Service.{authorize_and_bill}
use infopunks_trust_layer_ag.Execute.Requests.{
  ToolError, adapter_error, Executed, answered, failed, Handled, no_handler, handled,
  handler_failed, ToolCall, AdapterTables, Circumstances,
}
use infopunks_trust_layer_ag.Execute.Notes.{note_failure, note_success}
use infopunks_trust_layer_ag.Execute.Tool.{
  finalize, error_result, success_result, tool_error_of, fail, after_handler, after_payment,
  pay_and_handle,
}

pub reserve_idempotency_key-claim_answer :
    (q : Claim) (now : ℕ) (rows : List IdempotencyRow)
    → (reserve_idempotency_key q now rows).0
      ≡ claim_answer q now (get_idempotency_record q.key rows)
unfolding store_call spec_call
reserve_idempotency_key-claim_answer q now rows = cc (
    (store_call-Simulates (claim q now) rows (λ key. get_idempotency_record key rows) tt
      (λ key. refl)).0)

-- A key without a record has a new one once it is claimed.
pub get-reserved :
    (q : Claim) (now : ℕ) (rows : List IdempotencyRow)
    → get_idempotency_record q.key rows ≡ none
    → get_idempotency_record q.key (reserve_idempotency_key q now rows).1 ≡ some (new_record q now)
unfolding store_call spec_call
get-reserved q now rows free =
    (store_call-Simulates (claim q now) rows (λ key. get_idempotency_record key rows) tt
        (λ key. refl)).1
      q.key
    ∙ rw free (rw ((eq_iff q.key q.key).1 refl) refl)

get-finalized :
    (r : Result) (now : ℕ) (rows : List IdempotencyRow) (old : Record)
    → r.response ≢ null
    → get_idempotency_record r.key rows ≡ some old
    → get_idempotency_record r.key (finalize_idempotency_key r now rows).1
      ≡ some (updated_record r now old)
unfolding store_call spec_call
get-finalized r now rows old h there =
    (store_call-Simulates (finish r now) rows (λ key. get_idempotency_record key rows) h
        (λ key. refl)).1
      r.key
    ∙ rw there (rw ((eq_iff r.key r.key).1 refl) refl)

abbrev pub is_success : ℕ → Bool
is_success code = leb 200 code && ltb code 300

-- The record holds what was answered, for the request with the given hash.
abbrev pub Holds : Circumstances → String → Executed → Record → Type 0
Holds env hash (answered v) r =
    (r.request_hash ≡ hash) × (r.status_code ≡ some 200) × (r.response ≡ v) × (v ≢ null)
Holds env hash (failed e) r =
    (r.request_hash ≡ hash)
    × (r.status_code ≡ some (get_or_else e.status 500))
    × (r.response ≡ object (env.error_fields e))
    × (r.error_code ≡ some (get_or_else e.code "UPSTREAM_UNAVAILABLE"))

abbrev pub Recorded : ToolCall → Circumstances → Executed × AdapterTables → Type 0
Recorded call env (o, s) =
    (r : Record) × (get_idempotency_record call.idempotency_key s.paid_idempotency ≡ some r)
    × Holds env call.request_hash o r

object-null : (fs : Fields) → object fs ≢ null
object-null fs = λ e. cc e

fail-Recorded :
    (call : ToolCall) (env : Circumstances) (e : ToolError) (receipt_id : Option String)
    (s : AdapterTables) (old : Record)
    → get_idempotency_record call.idempotency_key s.paid_idempotency ≡ some old
    → old.request_hash ≡ call.request_hash
    → Recorded call env (fail true call env e receipt_id s)
unfolding fail finalize error_result updated_record
fail-Recorded call env e receipt_id s old there mine =
    let r = error_result call env e receipt_id in
    (
      updated_record r env.now old,
      get-finalized r env.now s.paid_idempotency old (object-null (env.error_fields e)) there,
      (mine, refl, refl, refl),
    )

-- The calls that run while the handler does leave the record of the key.
abbrev pub Keeps : ToolCall → Circumstances → Type 0
Keeps call env =
    (u : AdapterTables)
    → get_idempotency_record call.idempotency_key (env.while_handling u).paid_idempotency
      ≡ get_idempotency_record call.idempotency_key u.paid_idempotency

after_handler-Recorded :
    (call : ToolCall) (env : Circumstances) (b : Billed) (h : Handled) (s : AdapterTables)
    (old : Record)
    → Keeps call env
    → get_idempotency_record call.idempotency_key s.paid_idempotency ≡ some old
    → old.request_hash ≡ call.request_hash
    → Recorded call env (after_handler true call env b h s)
unfolding after_handler note_success note_failure finalize updated_record
after_handler-Recorded call env b no_handler s old kept there mine =
    fail-Recorded call env
      (adapter_error "INVALID_INPUT" ("No handler bound for " ^^ call.tool_name ^^ ".") 500)
      b.payment_receipt_id s old there mine
after_handler-Recorded call env b (handler_failed e) s old kept there mine =
    fail-Recorded call env e b.payment_receipt_id (note_failure call env b e (env.while_handling s))
      old (kept s ∙ there) mine
after_handler-Recorded call env b (handled value) s old kept there mine =
    let r = success_result call env b value in
    (
      updated_record r env.now old,
      get-finalized r env.now (env.while_handling s).paid_idempotency old
          (object-null (env.success_fields b value)) (kept s ∙ there),
      (mine, refl, refl, object-null (env.success_fields b value)),
    )

after_payment-Recorded :
    (call : ToolCall) (env : Circumstances) (a : Authorization) (s : AdapterTables) (old : Record)
    → Keeps call env
    → get_idempotency_record call.idempotency_key s.paid_idempotency ≡ some old
    → old.request_hash ≡ call.request_hash
    → Recorded call env (after_payment true call env a s)
unfolding after_payment
after_payment-Recorded call env (thrown e) s old kept there mine =
    fail-Recorded call env (tool_error_of e) none s old there mine
after_payment-Recorded call env (authorized b) s old kept there mine =
    after_handler-Recorded call env b env.handling s old kept there mine

pub pay_and_handle-Recorded :
    (config : PaymentConfig) (call : ToolCall) (env : Circumstances) (s : AdapterTables)
    (old : Record)
    → Keeps call env
    → get_idempotency_record call.idempotency_key s.paid_idempotency ≡ some old
    → old.request_hash ≡ call.request_hash
    → Recorded call env (pay_and_handle true config call env s)
unfolding pay_and_handle
pay_and_handle-Recorded config call env s old kept there mine =
    let (authorization, payments') =
      authorize_and_bill config call.paid_call env.outside s.payments in
    after_payment-Recorded call env authorization (record s { payments = payments' }) old kept there
      mine
