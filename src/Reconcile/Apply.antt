-- ===== src/Reconcile/Apply.antt =====
-- `ReconciliationService.applySettlementEvent` of reconciliation-service.mjs.
use infopunks_trust_layer_ag.Base.{
  ℕ, String, Bool, false, not, ◌&&◌, Option, none, some, List, truthy, or_else, if◌then◌else◌,
}
use infopunks_trust_layer_ag.Storage.Tables.{ReceiptRow}
use infopunks_trust_layer_ag.Storage.Receipts.{get_receipt_by_id, get_receipt_by_verifier_reference}
use infopunks_trust_layer_ag.Storage.Settlement.{Outcome, ran, update_receipt_settlement}
use infopunks_trust_layer_ag.Reconcile.Mapping.{
  Payload, Mapped, map_settlement, is_downgrade, update_of,
}

pub data Applied : Type 0 where
  missing_receipt_reference : Applied
  -- `ignored: true, reason: "terminal_state_preserved"`, with the status that stays.
  terminal_state_preserved : String → Applied
  -- `ok`, the mapped status, and how the store's update ended.
  applied : Bool → String → Outcome → Applied

abbrev pub was_updated : Outcome → Bool
was_updated (ran changed) = changed
was_updated _ = false

abbrev pub reference_of : Payload → Option String
reference_of p = or_else p.verifier_reference p.receipt_reference

unfoldable pub existing_receipt : Payload → List ReceiptRow → Option ReceiptRow
existing_receipt p rows =
    if truthy p.receipt_id
    then get_receipt_by_id p.receipt_id rows
    else get_receipt_by_verifier_reference (reference_of p) rows

abbrev pub downgrades : Mapped → Option ReceiptRow → Bool
downgrades m none = false
downgrades m (some r) = is_downgrade r.settlement_status m.settlement_status

abbrev status_of : Option ReceiptRow → String
status_of none = ""
status_of (some r) = r.settlement_status

-- `mapped_at` and `now` are the clock as the mapping and the store's write read it.
unfoldable pub apply_settlement_event :
    Payload → ℕ → ℕ → List ReceiptRow → Applied × List ReceiptRow
apply_settlement_event p mapped_at now rows =
    let mapped = map_settlement p mapped_at in
    let existing = existing_receipt p rows in
    if not (truthy (reference_of p)) && not (truthy p.receipt_id)
    then (missing_receipt_reference, rows)
    else if downgrades mapped existing
    then (terminal_state_preserved (status_of existing), rows)
    else let (outcome, rows') =
        update_receipt_settlement (update_of p.receipt_id (reference_of p) mapped) now rows in
      (applied (was_updated outcome) mapped.settlement_status outcome, rows')
