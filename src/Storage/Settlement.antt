-- ===== src/Storage/Settlement.antt =====
-- `updateReceiptSettlement` of state-store.mjs.
use infopunks_trust_layer_ag.Base.{
  ℕ, ltb, String, Bool, true, false, not, ◌&&◌, ◌||◌, Option, none, some, List, ◌==◌, eqb, truthy,
  text_of, same_column, update_rows, count_rows, to_lower_case, if◌then◌else◌,
}
use infopunks_trust_layer_ag.Storage.Tables.{ReceiptRow}
use infopunks_trust_layer_ag.Storage.Receipts.{
  has_id, has_reference, get_receipt_by_id, get_receipt_by_verifier_reference,
}

pub record Update : Type 0 where
  pub receipt_id : Option String
  pub verifier_reference : Option String
  pub receipt_status : String
  pub settlement_status : String
  pub settled_at : Option ℕ
  pub reversed_at : Option ℕ
  pub last_error : Option String

pub data Outcome : Type 0 where
  -- `{ updated: changes > 0 }`
  ran : Bool → Outcome
  receipt_not_found terminal_reversed invalid_settled_downgrade : Outcome
  invalid_failed_downgrade noop missing_lookup_key : Outcome

abbrev same_instant : Option ℕ → Option ℕ → Bool
same_instant none none = true
same_instant none (some b) = false
same_instant (some a) none = false
same_instant (some a) (some b) = eqb a b

-- The columns that an update writes; an update that leaves the status keeps the old ones.
unfoldable pub settle_row : Update → ReceiptRow → ℕ → ReceiptRow → ReceiptRow
settle_row u current now r = record r {
  receipt_status = u.receipt_status;
  settlement_status = u.settlement_status;
  settled_at = if same then current.settled_at else u.settled_at;
  reversed_at = if same then current.reversed_at else u.reversed_at;
  last_error = if same then current.last_error else u.last_error;
  updated_at = now;
}
  where
    same : Bool
    same = to_lower_case current.settlement_status == to_lower_case u.settlement_status

-- The guards before the write, over the two lower-case statuses: the first that applies.
unfoldable pub settle_guard : String → String → Bool → Option Outcome
settle_guard current next changed =
    if current == "reversed" && not (next == "reversed")
    then some terminal_reversed
    else if current == "settled" && not (next == "settled" || next == "reversed")
    then some invalid_settled_downgrade
    else if current == "failed" && next == "provisional"
    then some invalid_failed_downgrade
    else if not changed
    then some noop
    else none

unfoldable pub is_changed : ReceiptRow → ReceiptRow → Bool
is_changed current next =
    not (current.receipt_status == next.receipt_status)
    || (not (current.settlement_status == next.settlement_status)
        || (not (same_instant current.settled_at next.settled_at)
            || (not (same_instant current.reversed_at next.reversed_at)
                || not (same_column current.last_error next.last_error))))

unfoldable pub current_receipt : Update → List ReceiptRow → Option ReceiptRow
current_receipt u rows =
    if truthy u.receipt_id
    then get_receipt_by_id u.receipt_id rows
    else get_receipt_by_verifier_reference u.verifier_reference rows

-- `WHERE receipt_id = ?` where an id is given, `WHERE verifier_reference = ?` otherwise.
unfoldable pub is_target : Update → ReceiptRow → Bool
is_target u r =
    if truthy u.receipt_id
    then has_id (text_of u.receipt_id) r
    else has_reference u.verifier_reference r

unfoldable pub update_receipt_settlement : Update → ℕ → List ReceiptRow → Outcome × List ReceiptRow
update_receipt_settlement u now rows = elim (current_receipt u rows) [
  | none ↦ (receipt_not_found, rows)
  | some current ↦
      elim (settle_guard (to_lower_case current.settlement_status)
        (to_lower_case u.settlement_status)
        (is_changed current (settle_row u current now current))) [
          | some why ↦ (why, rows)
          | none ↦
              if truthy u.receipt_id || truthy u.verifier_reference
              then (
                ran (ltb 0 (count_rows (is_target u) rows)),
                update_rows (is_target u) (settle_row u current now) rows,
              )
              else (missing_lookup_key, rows)
        ]
]
