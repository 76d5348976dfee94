-- ===== src/Execute/Cached.antt =====
-- The answer of `executeTool` of mcp-server.mjs from a record that was there.
use infopunks_trust_layer_ag.Base.{
  String, Bool, true, false, ◌&&◌, Option, none, some, ◌==◌, leb, ltb, get_or_else, or_else,
  if◌then◌else◌,
}
use infopunks_trust_layer_ag.Base.Json.{
  Json, null, truth, number, text, array, object, Fields, no_fields, field,
}
use infopunks_trust_layer_ag.Guard.Record.{Record}
use infopunks_trust_layer_ag.Execute.Requests.{adapter_error, Executed, answered, failed}

abbrev field_in : String → Fields → Json
field_in name no_fields = null
field_in name (field key value rest) = if key == name then value else field_in name rest

unfoldable pub get_field : String → Json → Json
get_field name (object fs) = field_in name fs
get_field name null = null
get_field name (truth b) = null
get_field name (number n) = null
get_field name (text t) = null
get_field name (array xs) = null

abbrev pub text_in : Json → Option String
text_in (text t) = some t
text_in null = none
text_in (truth b) = none
text_in (number n) = none
text_in (array xs) = none
text_in (object fs) = none

abbrev pub is_null : Json → Bool
is_null null = true
is_null (truth b) = false
is_null (number n) = false
is_null (text t) = false
is_null (array xs) = false
is_null (object fs) = false

abbrev pub in_progress : Executed
in_progress =
    failed (adapter_error "IDEMPOTENCY_CONFLICT" "Idempotent request is already in progress." 409)

-- The answer from a record that was there.
unfoldable pub cached_answer : Option Record → Executed
cached_answer none = in_progress
cached_answer (some r) = elim r.status_code [
  | none ↦ in_progress
  | some code ↦
      if is_null r.response
      then in_progress
      else if leb 200 code && ltb code 300
      then answered r.response
      else failed record {
        code = some (
            get_or_else
              (or_else r.error_code (text_in (get_field "code" (get_field "error" r.response))))
              "UPSTREAM_UNAVAILABLE");
        message =
            get_or_else (text_in (get_field "message" (get_field "error" r.response)))
              "Returning cached idempotent error response.";
        status = some code;
      }
]
