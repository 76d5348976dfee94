-- ===== src/Storage/Receipts.antt =====
-- The lookups on payment receipts, the day's spend, and the receipts that are not settled
-- (state-store.mjs).
use infopunks_trust_layer_ag.Base.{
  ℕ, String, Bool, ◌&&◌, ◌||◌, Option, none, some, List, [], ◌∷◌, ◌==◌, eqb, truthy, text_of,
  same_key, leb, find_row, filter, sum_by, order_by, take, update_rows, if◌then◌else◌,
}
use infopunks_trust_layer_ag.Base.Json.{Json}
use infopunks_trust_layer_ag.Storage.Tables.{ReceiptRow, Metadata, day_prefix}

-- `WHERE receipt_id = ?`, `WHERE verifier_reference = ?` and `WHERE proof_id = ?`
abbrev pub has_id : String → ReceiptRow → Bool
has_id id r = r.receipt_id == id

abbrev pub has_reference : Option String → ReceiptRow → Bool
has_reference reference r = same_key r.verifier_reference reference

abbrev pub has_proof : Option String → ReceiptRow → Bool
has_proof proof r = same_key r.proof_id proof

unfoldable pub get_receipt_by_id : Option String → List ReceiptRow → Option ReceiptRow
get_receipt_by_id id rows = if truthy id then find_row (has_id (text_of id)) rows else none

unfoldable pub get_receipt_by_verifier_reference :
    Option String → List ReceiptRow → Option ReceiptRow
get_receipt_by_verifier_reference reference rows =
    if truthy reference then find_row (has_reference reference) rows else none

unfoldable pub get_receipt_by_proof_id : Option String → List ReceiptRow → Option ReceiptRow
get_receipt_by_proof_id proof rows = if truthy proof then find_row (has_proof proof) rows else none

-- `receipt_status IN ('verified', 'settled', 'provisional')`
unfoldable pub is_counted : String → Bool
is_counted status = status == "verified" || (status == "settled" || status == "provisional")

unfoldable pub spent_units : String → ℕ → ReceiptRow → ℕ
spent_units payer day r =
    if r.payer == payer && (eqb (day_prefix r.provisional_at) day && is_counted r.receipt_status)
    then r.billed_units
    else 0

-- `spendByDay`
unfoldable pub spend_by_day : String → ℕ → List ReceiptRow → ℕ
spend_by_day payer day rows = sum_by (spent_units payer day) rows

-- `ORDER BY provisional_at DESC`: a row goes behind the rows with an equal time.
abbrev pub insert_latest : ReceiptRow → List ReceiptRow → List ReceiptRow
insert_latest r [] = r ∷ []
insert_latest r (x ∷ xs) =
    if leb x.provisional_at r.provisional_at then r ∷ x ∷ xs else x ∷ insert_latest r xs

abbrev pub latest_first : List ReceiptRow → List ReceiptRow
latest_first [] = []
latest_first (r ∷ rs) = insert_latest r (latest_first rs)

unfoldable pub recent_receipts : String → ℕ → List ReceiptRow → List ReceiptRow
recent_receipts payer limit rows = take limit (latest_first (filter (λ r. r.payer == payer) rows))

pub record SpendState : Type 0 where
  pub day : ℕ
  pub payer : String
  pub units_spent_today : ℕ
  pub recent : List ReceiptRow

-- `spendState`
unfoldable pub spend_state : String → ℕ → List ReceiptRow → SpendState
unfolding spend_by_day recent_receipts
spend_state payer now rows = record {
  day = day_prefix now;
  payer = payer;
  units_spent_today = spend_by_day payer (day_prefix now) rows;
  recent = recent_receipts payer 10 rows;
}

-- `settlement_status IN ('pending', 'provisional')`
unfoldable pub is_unsettled : ReceiptRow → Bool
is_unsettled r = r.settlement_status == "pending" || r.settlement_status == "provisional"

-- `listUnsettledReceipts`
unfoldable pub list_unsettled_receipts : ℕ → List ReceiptRow → List ReceiptRow
unfolding is_unsettled
list_unsettled_receipts limit rows =
    take limit (order_by (λ r. r.provisional_at) (filter is_unsettled rows))

-- `{ ...old, ...patch }`: a key that is there keeps its place, a new one goes to the end.
unfoldable pub merge_entry : String → Json → Metadata → Metadata
merge_entry key value [] = (key, value) ∷ []
merge_entry key value ((k, v) ∷ rest) =
    if k == key then (key, value) ∷ rest else (k, v) ∷ merge_entry key value rest

unfoldable pub merge_metadata : Metadata → Metadata → Metadata
unfolding merge_entry
merge_metadata old [] = old
merge_metadata old ((key, value) ∷ patch) = merge_metadata (merge_entry key value old) patch

-- `updateReceiptMetadata`
unfoldable pub update_receipt_metadata :
    Option String → Metadata → ℕ → List ReceiptRow → Option Metadata × List ReceiptRow
update_receipt_metadata id patch now rows = elim (get_receipt_by_id id rows) [
  | none ↦ (none, rows)
  | some existing ↦
      let merged = merge_metadata existing.metadata patch in
      (
        some merged,
        update_rows (has_id (text_of id)) (λ r. record r { metadata = merged; updated_at = now })
            rows,
      )
]

-- `setReceiptInternalTrace`
unfoldable pub set_receipt_internal_trace :
    String → Option String → ℕ → List ReceiptRow → List ReceiptRow
set_receipt_internal_trace id trace now rows =
    update_rows (has_id id) (λ r. record r { internal_trace_id = trace; updated_at = now }) rows
