-- ===== src/Billing/History.antt =====
-- Histories of the calls that write to the payment tables.
use infopunks_trust_layer_ag.Base.{ℕ, String, Option, List, [], ◌∷◌}
use infopunks_trust_layer_ag.Storage.Tables.{Payments, Metadata}
use infopunks_trust_layer_ag.Storage.Receipts.{update_receipt_metadata, set_receipt_internal_trace}
use infopunks_trust_layer_ag.Storage.Reserve.{Request, Readings, reserve_paid_operation}
use infopunks_trust_layer_ag.Reconcile.Mapping.{Payload}
use infopunks_trust_layer_ag.Reconcile.Apply.{apply_settlement_event}

pub data Call : Type 0 where
  reserve : Request → Readings → Call
  settle : Payload → ℕ → ℕ → Call
  describe : Option String → Metadata → ℕ → Call
  trace : String → Option String → ℕ → Call

unfoldable pub step : Call → Payments → Payments
step (reserve q c) s = (reserve_paid_operation q c s).1
step (settle p mapped_at now) s = record s {
  payment_receipts = (apply_settlement_event p mapped_at now s.payment_receipts).1;
}
step (describe id patch now) s = record s {
  payment_receipts = (update_receipt_metadata id patch now s.payment_receipts).1;
}
step (trace id internal now) s = record s {
  payment_receipts = set_receipt_internal_trace id internal now s.payment_receipts;
}

unfoldable pub run : List Call → Payments → Payments
run [] s = s
run (c ∷ cs) s = run cs (step c s)

abbrev pub no_payments : Payments
no_payments = record { replay_nonces = []; payment_receipts = [] }
