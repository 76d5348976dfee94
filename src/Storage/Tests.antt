-- ===== src/Storage/Tests.antt =====
-- Rows of the journals on concrete calls.
use infopunks_trust_layer_ag.Base.{◌≡◌, refl, String, none, some, [], ◌∷◌}
use infopunks_trust_layer_ag.Storage.Tables.{insert_unique}
use infopunks_trust_layer_ag.Storage.Journal.{
  UsageRow, usage_clash, update_usage_status, record_tool_usage, finite_number, null_value, absent,
  safe_limit,
}

abbrev usage : String → String → UsageRow
usage id status = record {
  usage_id = id;
  adapter_trace_id = some "t1";
  tool_name = "resolve_trust";
  payer = none;
  caller_subject_id = none;
  target_subject_id = none;
  billed_units = 1;
  receipt_id = none;
  usage_status = status;
  created_at = 5;
  updated_at = none;
}

-- The second row of a trace sets the status of the first.
second_usage :
    record_tool_usage (usage "u2" "failed") 9 (record_tool_usage (usage "u1" "started") 5 [])
    ≡ record (usage "u1" "failed") { updated_at = some 9 } ∷ []
unfolding record_tool_usage update_usage_status usage_clash insert_unique
second_usage = refl

null_is_zero : (finite_number null_value ≡ some 0) × (finite_number absent ≡ none)
unfolding finite_number
null_is_zero = (refl, refl)

limits : (safe_limit 0 ≡ 50) × (safe_limit 900 ≡ 200)
unfolding safe_limit
limits = (refl, refl)
