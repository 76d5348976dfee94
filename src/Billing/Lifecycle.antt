-- ===== src/Billing/Lifecycle.antt =====
-- A receipt through any history of calls, and the payment that is billed at most once.
use infopunks_trust_layer_ag.Base.{◌≤◌, ◌≡◌, ◌⊎◌, true, Option, none, some, same_key}
use infopunks_trust_layer_ag.Storage.Tables.{ReceiptRow}
use infopunks_trust_layer_ag.Storage.Reserve.{Request}
use infopunks_trust_layer_ag.Billing.Stages.{Stage, rank, InStage}

-- What a later state holds of a receipt: the same payment, at the same stage or a later one.
abbrev pub Later : Stage → ReceiptRow → Option ReceiptRow → Type 0
Later g r none = ⊥
Later g r (some r') =
    (r'.payer ≡ r.payer)
    × (r'.billed_units ≡ r.billed_units)
    × (r'.provisional_at ≡ r.provisional_at)
    × ((g' : Stage) × InStage g' r' × (rank g ≤ rank g'))

-- Both name one proof, or one reference of the verifier.
abbrev pub SamePayment : Request → Request → Type 0
SamePayment q q' =
    (same_key q'.proof_id q.proof_id ≡ true)
    ⊎ (same_key q'.verifier_reference q.verifier_reference ≡ true)
