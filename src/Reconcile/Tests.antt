-- ===== src/Reconcile/Tests.antt =====
-- Witnesses for reconciliation: a run over one provisional receipt that has been settled.
use infopunks_trust_layer_ag.Base.{◌+◌, ◌*◌, none, some, [], ◌∷◌}
use infopunks_trust_layer_ag.Storage.Reserve.{Request, new_receipt}
use infopunks_trust_layer_ag.Reconcile.Mapping.{Payload}
use infopunks_trust_layer_ag.Reconcile.Once.{World, status, Surroundings}

abbrev settled : Payload
settled = record {
  status = some "settled";
  settlement_status = none;
  verifier_reference = some "v1";
  receipt_reference = none;
  receipt_id = none;
  reason = none;
}

-- Nobody else writes; each round takes a second, and the verifier says that every receipt is settled.
abbrev alone : Surroundings
alone = record {
  answers = λ k reference. status (some settled);
  others = λ k w. w;
  meanwhile = λ k w. w;
  clock = λ k. 1000 * k;
  answered_at = λ k. 1000 * k + 500;
}

abbrev bought : Request
bought = record {
  nonce = some "n1";
  proof_id = some "p1";
  session_id = none;
  payer = "agent_1";
  tool_name = "resolve_trust";
  replay_window_seconds = 60;
  verifier_reference = some "v1";
  billed_units = 3;
  adapter_trace_id = none;
  metadata = [];
  spend_limit_units = 10;
}

abbrev world : World
world = record { receipts = new_receipt bought "x1" 1000 ∷ []; locks = [] }
