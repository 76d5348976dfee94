-- ===== src/Billing/Growth.antt =====
-- Any history of calls: receipts are added, and those that are there evolve.
use infopunks_trust_layer_ag.Base.{
  ℕ, ◌≡◌, refl, ◌⊎◌, inl, inr, String, Option, List, [], ◌∷◌, arith, Distinct, Each, Extends, kept,
  added, Each-refl, Each-Distinct, Extends-trans, update_rows-Each_all, Option-cases,
}
use infopunks_trust_layer_ag.Storage.Tables.{ReceiptRow, Payments, Metadata, receipt_clash}
use infopunks_trust_layer_ag.Storage.Receipts.{
  update_receipt_metadata, set_receipt_internal_trace, get_receipt_by_id, merge_metadata,
}
use infopunks_trust_layer_ag.Storage.Settlement.{update_receipt_settlement}
use infopunks_trust_layer_ag.Storage.Reserve.{
  Request, Readings, Reservation, reserved, rejected, reserve_paid_operation,
}
use infopunks_trust_layer_ag.Reconcile.Mapping.{Payload, map_settlement, payload_status, update_of}
use infopunks_trust_layer_ag.Reconcile.Apply.{apply_settlement_event, reference_of}
use infopunks_trust_layer_ag.Billing.Reservations.{Charges, reserve_paid_operation-Charges}
use infopunks_trust_layer_ag.Billing.Stages.{Evolves, Evolves-refl, Evolves-trans, map_status-stage}
use infopunks_trust_layer_ag.Billing.Evolution.{update_receipt_settlement-Each}
use infopunks_trust_layer_ag.Billing.History.{Call, reserve, settle, describe, trace, step, run}

abbrev pub Receipts : Type 0
Receipts = List ReceiptRow

same : (rows : Receipts) → Each Evolves rows rows
same rows = Each-refl Evolves Evolves-refl rows

-- Notes on a receipt leave all the rest.
noted_Evolves :
    (r : ReceiptRow) (metadata : Metadata) (internal : Option String) (now : ℕ)
    → Evolves r (record r { metadata = metadata; internal_trace_id = internal; updated_at = now })
noted_Evolves r metadata internal now = record {
  same_id = refl;
  same_reference = refl;
  same_proof = refl;
  same_payer = refl;
  same_units = refl;
  same_time = refl;
  forward = λ g h. (g, h, omega arith);
}

pub receipt_clash-Evolves :
    (x x' y y' : ReceiptRow) → Evolves x x' → Evolves y y' → receipt_clash x y ≡ receipt_clash x' y'
unfolding receipt_clash
receipt_clash-Evolves x x' y y' p q =
    rw (p.same_id, q.same_id, p.same_reference, q.same_reference, p.same_proof, q.same_proof)

pub evolved :
    {xs ys : Receipts}
    → Each Evolves xs ys
    → Distinct receipt_clash xs
    → Extends Evolves xs ys × Distinct receipt_clash ys
evolved e d = (kept e, Each-Distinct Evolves receipt_clash receipt_clash-Evolves e d)

pub apply_settlement_event_cases :
    (p : Payload) (mapped_at now : ℕ) (rows : Receipts)
    → ((apply_settlement_event p mapped_at now rows).1 ≡ rows)
      ⊎ ((apply_settlement_event p mapped_at now rows).1
          ≡ (update_receipt_settlement
              (update_of p.receipt_id (reference_of p) (map_settlement p mapped_at))
              now
              rows).1)
unfolding apply_settlement_event
apply_settlement_event_cases p mapped_at now rows = ground arith

pub apply_settlement_event-Each :
    (p : Payload) (mapped_at now : ℕ) (rows : Receipts)
    → Distinct receipt_clash rows
    → Each Evolves rows (apply_settlement_event p mapped_at now rows).1
unfolding map_settlement
apply_settlement_event-Each p mapped_at now rows d =
    elim (apply_settlement_event_cases p mapped_at now rows) [
      | inl kept_rows ↦ rw kept_rows (same rows)
      | inr written ↦
          let (g, e, f) = map_status-stage (payload_status p) p.reason mapped_at in
          rw written (update_receipt_settlement-Each g _ now rows e f d)
    ]

pub update_receipt_metadata-Each :
    (id : Option String) (patch : Metadata) (now : ℕ) (rows : Receipts)
    → Each Evolves rows (update_receipt_metadata id patch now rows).1
unfolding update_receipt_metadata
update_receipt_metadata-Each id patch now rows = elim (Option-cases (get_receipt_by_id id rows)) [
  | inl missing ↦ rw (missing, update_receipt_metadata) (same rows)
  | inr (r, found) ↦
      rw (found, update_receipt_metadata)
        (update_rows-Each_all Evolves _ _ rows Evolves-refl
          (λ x. noted_Evolves x (merge_metadata r.metadata patch) x.internal_trace_id now))
]

pub set_receipt_internal_trace-Each :
    (id : String) (internal : Option String) (now : ℕ) (rows : Receipts)
    → Each Evolves rows (set_receipt_internal_trace id internal now rows)
unfolding set_receipt_internal_trace
set_receipt_internal_trace-Each id internal now rows =
    update_rows-Each_all Evolves _ _ rows Evolves-refl
      (λ r. noted_Evolves r r.metadata internal now)

reserve_paid_operation-Extends :
    (q : Request) (c : Readings) (s : Payments)
    → Distinct receipt_clash s.payment_receipts
    → let s' = (reserve_paid_operation q c s).1 in
      Extends Evolves s.payment_receipts s'.payment_receipts
      × Distinct receipt_clash s'.payment_receipts
reserve_paid_operation-Extends q c s d =
    from_outcome (reserve_paid_operation q c s) (reserve_paid_operation-Charges q c s)
  where
    from_outcome :
        (o : Reservation × Payments)
        → Charges q c s o
        → Extends Evolves s.payment_receipts o.1.payment_receipts
          × Distinct receipt_clash o.1.payment_receipts
    from_outcome (rejected why, s') e = rw e (kept (same s.payment_receipts), d)
    from_outcome (reserved r, s') e = rw e.0 (added (kept (same s.payment_receipts)), (e.4, d))

-- One call.
pub step-Extends :
    (call : Call) (s : Payments)
    → Distinct receipt_clash s.payment_receipts
    → Extends Evolves s.payment_receipts (step call s).payment_receipts
      × Distinct receipt_clash (step call s).payment_receipts
unfolding step
step-Extends (reserve q c) s d = reserve_paid_operation-Extends q c s d
step-Extends (settle p mapped_at now) s d =
    evolved (apply_settlement_event-Each p mapped_at now s.payment_receipts d) d
step-Extends (describe id patch now) s d =
    evolved (update_receipt_metadata-Each id patch now s.payment_receipts) d
step-Extends (trace id internal now) s d =
    evolved (set_receipt_internal_trace-Each id internal now s.payment_receipts) d

-- After any history the receipts of before are there, each as its calls let it evolve.
pub run-Extends :
    (calls : List Call) (s : Payments)
    → Distinct receipt_clash s.payment_receipts
    → Extends Evolves s.payment_receipts (run calls s).payment_receipts
      × Distinct receipt_clash (run calls s).payment_receipts
unfolding run
run-Extends [] s d = (kept (same s.payment_receipts), d)
run-Extends (c ∷ cs) s d =
    let (first, d') = step-Extends c s d in
    let (rest, d'') = run-Extends cs (step c s) d' in
    (Extends-trans Evolves Evolves-trans first rest, d'')
