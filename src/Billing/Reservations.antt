-- ===== src/Billing/Reservations.antt =====
-- What one reservation does to the two payment tables.
use infopunks_trust_layer_ag.Base.{
  ℕ, ◌+◌, ◌≤◌, ◌≡◌, ◌⊎◌, inl, inr, String, true, false, none, some, List, ◌∷◌, arith, eq_iff, any,
  Bool-cases,
}
use infopunks_trust_layer_ag.Storage.Tables.{
  ReceiptRow, Payments, receipt_clash, insert_receipt, day_prefix,
}
use infopunks_trust_layer_ag.Storage.Receipts.{is_counted, spent_units, spend_by_day}
use infopunks_trust_layer_ag.Storage.Reserve.{
  Request, Readings, Reservation, reserved, rejected, new_receipt, reserve_paid_operation,
}

abbrev pub Charges : Request → Readings → Payments → Reservation × Payments → Type 0
Charges q c s (rejected why, s') = s' ≡ s
Charges q c s (reserved r, s') =
    (s'.payment_receipts ≡ new_receipt q c.receipt_id c.now ∷ s.payment_receipts)
    × (r ≡ new_receipt q c.receipt_id c.now)
    × (spend_by_day q.payer (day_prefix c.now) s'.payment_receipts
        ≡ spend_by_day q.payer (day_prefix c.now) s.payment_receipts + q.billed_units)
    × (spend_by_day q.payer (day_prefix c.now) s'.payment_receipts ≤ q.spend_limit_units)
    × (any (receipt_clash (new_receipt q c.receipt_id c.now)) s.payment_receipts ≡ false)

spent_units-new_receipt :
    (q : Request) (id : String) (now : ℕ)
    → spent_units q.payer (day_prefix now) (new_receipt q id now) ≡ q.billed_units
unfolding spent_units new_receipt is_counted
spent_units-new_receipt q id now = ground (arith, eq_iff q.payer q.payer)

pub insert_receipt_cases :
    (row : ReceiptRow) (rows : List ReceiptRow)
    → ((insert_receipt row rows ≡ none) × (any (receipt_clash row) rows ≡ true))
      ⊎ ((insert_receipt row rows ≡ some (row ∷ rows)) × (any (receipt_clash row) rows ≡ false))
unfolding insert_receipt
insert_receipt_cases row rows = elim (Bool-cases (any (receipt_clash row) rows)) [
  | inl clash ↦ inl (rw clash, clash)
  | inr free ↦ inr (rw free, free)
]

-- A reservation either is rejected and leaves both tables as they were, or adds exactly its
-- receipt, raises the payer's spend of the day by the units, keeps that spend within the limit, and
-- its receipt clashed with none that was there.
pub reserve_paid_operation-Charges :
    (q : Request) (c : Readings) (s : Payments) → Charges q c s (reserve_paid_operation q c s)
unfolding reserve_paid_operation spend_by_day
reserve_paid_operation-Charges q c s = ground (
  arith,
  insert_receipt_cases (new_receipt q c.receipt_id c.now) s.payment_receipts,
  spent_units-new_receipt q c.receipt_id c.now,
)
