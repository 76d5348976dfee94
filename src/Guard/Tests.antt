-- ===== src/Guard/Tests.antt =====
-- Witnesses for the guard: a claim, a result, and claims of the key again.
use infopunks_trust_layer_ag.Base.{◌≡◌, refl, String, none, some, List, [], ◌∷◌, All}
use infopunks_trust_layer_ag.Base.Json.{text}
use infopunks_trust_layer_ag.Storage.Tables.{insert_unique}
use infopunks_trust_layer_ag.Guard.Record.{Claim, Result}
use infopunks_trust_layer_ag.Guard.Memory.{Records, memory_reserve, new_record, map_get, map_set}
use infopunks_trust_layer_ag.Guard.Store.{
  IdempotencyRow, reserve_idempotency_key, idempotency_row, get_idempotency_record, record_of,
}
use infopunks_trust_layer_ag.Guard.Spec.{
  StoreCall, claim, finish, look, answers, memory_call, store_call, spec_call,
}
use infopunks_trust_layer_ag.Guard.Refines.{memory_call-answers}
use infopunks_trust_layer_ag.Guard.Agreement.{HasResponse, store_call-memory_call}
use infopunks_trust_layer_ag.Guard.Keys.{
  final, Reclaims, reserve_idempotency_key-Reclaims, memory_reserve-Reclaims,
}

abbrev claim_of : String → String → Claim
claim_of key hash = record {
  key = key;
  request_hash = hash;
  payer = none;
  subject_id = some "agent_1";
  nonce = none;
  mode = none;
}

abbrev result_of : String → Result
result_of key = record {
  key = key;
  status_code = some 200;
  response = text "done";
  error_code = none;
  receipt_id = some "x1";
}

abbrev calls : List StoreCall
calls =
    claim (claim_of "k1" "h1") 1
    ∷ claim (claim_of "k2" "h2") 2
    ∷ finish (result_of "k1") 3
    ∷ finish (result_of "k3") 4
    ∷ claim (claim_of "k1" "h1") 5
    ∷ look "k2"
    ∷ []

memory_call-answers_example : answers memory_call calls [] ≡ answers spec_call calls (λ key. none)
memory_call-answers_example = memory_call-answers calls

responses : All HasResponse calls
responses = (tt, (tt, ((λ e. cc), ((λ e. cc), (tt, (tt, tt))))))

store_call-memory_call_example : answers store_call calls [] ≡ answers memory_call calls []
store_call-memory_call_example = store_call-memory_call calls responses

abbrev rows : List IdempotencyRow
rows = (store_call (claim (claim_of "k1" "h1") 1) []).1

abbrev records : Records
records = (memory_call (claim (claim_of "k1" "h1") 1) []).1

reserve_idempotency_key-Reclaims_example :
    Reclaims "h1"
      (claim_of "k1" "h9")
      (reserve_idempotency_key (claim_of "k1" "h9") 9 (final store_call calls rows)).0
unfolding store_call reserve_idempotency_key insert_unique idempotency_row get_idempotency_record
    record_of
reserve_idempotency_key-Reclaims_example =
    reserve_idempotency_key-Reclaims calls rows (claim_of "k1" "h9") 9 "h1" responses
      (_, refl, refl)

memory_reserve-Reclaims_example :
    Reclaims "h1"
      (claim_of "k1" "h9")
      (memory_reserve (claim_of "k1" "h9") 9 (final memory_call calls records)).0
unfolding memory_call memory_reserve new_record map_get map_set
memory_reserve-Reclaims_example =
    memory_reserve-Reclaims calls records (claim_of "k1" "h9") 9 "h1" (_, refl, refl)
