-- ===== src/Execute/Repeat.antt =====
-- A call that is repeated under its idempotency key is answered from what the first one stored.
use infopunks_trust_layer_ag.Base.{
  ℕ, ◌≡◌, ◌≢◌, refl, sym, ap, ◌∙◌, ◌⊎◌, inl, inr, String, Bool, true, false, ◌&&◌, Option, none,
  some, eq_iff, get_or_else, Bool-cases, Option-cases,
}
use infopunks_trust_layer_ag.Base.Json.{Json, null, truth, number, text, array, object}
use infopunks_trust_layer_ag.Guard.Record.{Record}
use infopunks_trust_layer_ag.Guard.Memory.{new_record}
use infopunks_trust_layer_ag.Guard.Store.{get_idempotency_record, reserve_idempotency_key}
use infopunks_trust_layer_ag.Authorize.Requests.{PaymentConfig}
use infopunks_trust_layer_ag.Execute.Requests.{
  ToolError, Executed, answered, failed, ToolCall, AdapterTables, Circumstances, tool_claim,
}
use infopunks_trust_layer_ag.Execute.Cached.{
  get_field, text_in, is_null, in_progress, cached_answer,
}
use infopunks_trust_layer_ag.Execute.Tool.{is_outdated, pay_and_handle, run_tool, execute_tool}
use infopunks_trust_layer_ag.Execute.Recorded.{
  reserve_idempotency_key-claim_answer, get-reserved, is_success, Holds, Keeps,
  pay_and_handle-Recorded,
}

-- What a repetition gets after an answer or an error that is stored.
abbrev pub Repeats : Circumstances → Executed → Executed → Type 0
Repeats env (answered v) o = o ≡ answered v
Repeats env (failed e) o =
    let code = get_or_else e.status 500 in
    ((is_success code ≡ true) × (o ≡ answered (object (env.error_fields e))))
    ⊎ ((is_success code ≡ false)
        × ((e' : ToolError) × (o ≡ failed e')
            × (e'.code ≡ some (get_or_else e.code "UPSTREAM_UNAVAILABLE"))
            × (e'.status ≡ some code)))

is_null-false : (v : Json) → v ≢ null → is_null v ≡ false
is_null-false null h = absurd (h refl)
is_null-false (truth b) h = refl
is_null-false (number n) h = refl
is_null-false (text t) h = refl
is_null-false (array xs) h = refl
is_null-false (object fs) h = refl

cached_answer-Repeats :
    (env : Circumstances) (hash : String) (first : Executed) (r : Record)
    → Holds env hash first r
    → Repeats env first (cached_answer (some r))
unfolding cached_answer
cached_answer-Repeats env hash (answered v) r (mine, code, value, full) =
    rw (code, value, is_null-false v full) refl
cached_answer-Repeats env hash (failed e) r (mine, code, value, name) =
    elim (Bool-cases (is_success (get_or_else e.status 500))) [
      | inl good ↦ inl (good, rw (code, value, good) refl)
      | inr bad ↦ inr (
        bad,
        rw (code, value, bad, name)
            (
              record {
                code = some (get_or_else e.code "UPSTREAM_UNAVAILABLE");
                message =
                    get_or_else
                      (text_in
                        (get_field "message" (get_field "error" (object (env.error_fields e)))))
                      "Returning cached idempotent error response.";
                status = some (get_or_else e.status 500);
              },
              refl,
              refl,
              refl,
            ),
      )
    ]

-- What a repetition gets: the stored result of the first call, or a refusal as one in progress if the
-- rate limit, the token or the caller's identity stopped the first call.
abbrev pub After : Circumstances → Executed → Executed → Type 0
After env first o =
    ((env.gate ≡ none) × Repeats env first o)
    ⊎ ((e : ToolError) × (env.gate ≡ some e) × (first ≡ failed e) × (o ≡ in_progress))

run_tool-passed :
    (config : PaymentConfig) (call : ToolCall) (env : Circumstances) (s : AdapterTables)
    → env.gate ≡ none
    → run_tool true config call env s ≡ pay_and_handle true config call env s
unfolding run_tool
run_tool-passed config call env s passed = ap (λ g. gated g) passed
  where
    gated : Option ToolError → Executed × AdapterTables
    gated (some e) = (failed e, s)
    gated none = pay_and_handle true config call env s

run_tool-stopped :
    (guarded : Bool) (config : PaymentConfig) (call : ToolCall) (env : Circumstances)
    (s : AdapterTables) (e : ToolError)
    → env.gate ≡ some e
    → run_tool guarded config call env s ≡ (failed e, s)
unfolding run_tool
run_tool-stopped guarded config call env s e stopped = ap (λ g. gated g) stopped
  where
    gated : Option ToolError → Executed × AdapterTables
    gated (some e) = (failed e, s)
    gated none = pay_and_handle guarded config call env s

Holds-same :
    (env : Circumstances) (hash : String) (first : Executed) (r : Record)
    → Holds env hash first r
    → r.request_hash ≡ hash
Holds-same env hash (answered v) r h = h.0
Holds-same env hash (failed e) r h = h.0

cached_answer-unfinished :
    (r : Record) → r.status_code ≡ none → cached_answer (some r) ≡ in_progress
unfolding cached_answer
cached_answer-unfinished r h = rw h refl

run_tool-Leaves :
    (config : PaymentConfig) (call : ToolCall) (env : Circumstances) (s : AdapterTables)
    (old : Record)
    → Keeps call env
    → get_idempotency_record call.idempotency_key s.paid_idempotency ≡ some old
    → old.request_hash ≡ call.request_hash
    → old.status_code ≡ none
    → (r : Record) × (get_idempotency_record call.idempotency_key
          (run_tool true config call env s).1.paid_idempotency
        ≡ some r)
      × (r.request_hash ≡ call.request_hash)
      × After env (run_tool true config call env s).0 (cached_answer (some r))
unfolding run_tool
run_tool-Leaves config call env s old kept there mine unfinished = elim (Option-cases env.gate) [
  | inl passed ↦
      let (r, there', holds) = pay_and_handle-Recorded config call env s old kept there mine in
      rw (run_tool-passed config call env s passed) (
        r,
        there',
        Holds-same env call.request_hash (pay_and_handle true config call env s).0 r holds,
        inl (
          passed,
          cached_answer-Repeats env call.request_hash (pay_and_handle true config call env s).0 r
              holds,
        ),
      )
  | inr (e, stopped) ↦
      rw (run_tool-stopped true config call env s e stopped)
        (old, there, mine, inr (e, stopped, refl, cached_answer-unfinished old unfinished))
]

module _ (config : PaymentConfig) (mode : Option String) (window_seconds : ℕ) (call : ToolCall)
    (env : Circumstances) (s : AdapterTables)
    (guarded : call.metered && config.required_default ≡ true)
    (timely : is_outdated window_seconds env.now call.timestamp_ms ≡ false) where
  execute_tool-taken :
      (r : Record)
      → get_idempotency_record call.idempotency_key s.paid_idempotency ≡ some r
      → r.request_hash ≡ call.request_hash
      → execute_tool config mode window_seconds call env s ≡ (cached_answer (some r), s)
  unfolding execute_tool
  execute_tool-taken r there same =
      rw
        (
          guarded,
          timely,
          reserve_idempotency_key-claim_answer (tool_claim call mode) env.now s.paid_idempotency,
          there,
        )
        (rw ((eq_iff r.request_hash call.request_hash).1 same) refl)

  execute_tool-fresh :
      get_idempotency_record call.idempotency_key s.paid_idempotency ≡ none
      → execute_tool config mode window_seconds call env s
        ≡ run_tool true config call env (record s {
          paid_idempotency =
              (reserve_idempotency_key (tool_claim call mode) env.now s.paid_idempotency).1;
        })
  unfolding execute_tool
  execute_tool-fresh free =
      rw
        (
          guarded,
          timely,
          reserve_idempotency_key-claim_answer (tool_claim call mode) env.now s.paid_idempotency,
          free,
        )
        refl

  -- What the call leaves for a later one, by whether its gate is passed.
  execute_tool-Leaves :
      Keeps call env
      → get_idempotency_record call.idempotency_key s.paid_idempotency ≡ none
      → ((r : Record) × (get_idempotency_record call.idempotency_key
              (execute_tool config mode window_seconds call env s).1.paid_idempotency
            ≡ some r)
          × (r.request_hash ≡ call.request_hash)
          × After env
              (execute_tool config mode window_seconds call env s).0
              (cached_answer (some r)))
  unfolding new_record
  execute_tool-Leaves kept free =
      let claimed = record s {
        paid_idempotency =
            (reserve_idempotency_key (tool_claim call mode) env.now s.paid_idempotency).1;
      } in
      rw (execute_tool-fresh free) (
        run_tool-Leaves config call env claimed (new_record (tool_claim call mode) env.now) kept
          (get-reserved (tool_claim call mode) env.now s.paid_idempotency free) refl refl)

-- Once a metered call of a tool with a fresh idempotency key has passed the rate limit, the token
-- and the identity check, a later call with the same key and request hash changes nothing, whatever
-- its handler and its payment would do: it is answered what the first was answered; if the first
-- failed it fails with the same code and status, or is answered the stored error if that status is
-- below 300. If the first was stopped by one of those checks, the later call is refused as one in
-- progress, for as long as the record of the key is the same. Both timestamps are timely, the calls
-- that run during the first one's handler leave the record of the key, and so does what comes in
-- between.
pub execute_tool-After :
    (config : PaymentConfig) (mode : Option String) (window_seconds : ℕ) (call again : ToolCall)
    (env env' : Circumstances) (s t : AdapterTables)
    → call.metered && config.required_default ≡ true
    → is_outdated window_seconds env.now call.timestamp_ms ≡ false
    → get_idempotency_record call.idempotency_key s.paid_idempotency ≡ none
    → Keeps call env
    → again.metered && config.required_default ≡ true
    → is_outdated window_seconds env'.now again.timestamp_ms ≡ false
    → again.idempotency_key ≡ call.idempotency_key
    → again.request_hash ≡ call.request_hash
    → get_idempotency_record call.idempotency_key t.paid_idempotency
      ≡ get_idempotency_record call.idempotency_key
          (execute_tool config mode window_seconds call env s).1.paid_idempotency
    → ((execute_tool config mode window_seconds again env' t).1 ≡ t)
      × After env
          (execute_tool config mode window_seconds call env s).0
          (execute_tool config mode window_seconds again env' t).0
execute_tool-After config mode window call again env env' s t guarded timely free kept guarded'
      timely' same_key same_hash same =
    let (r, there, mine, after) =
      execute_tool-Leaves config mode window call env s guarded timely kept free in
    rw
      (execute_tool-taken config mode window again env' t guarded' timely' r
        (rw same_key (same ∙ there)) (mine ∙ sym same_hash))
      (refl, after)
