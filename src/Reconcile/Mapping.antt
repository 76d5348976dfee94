-- ===== src/Reconcile/Mapping.antt =====
-- `mapSettlement`, `STATUS_RANK` and `isDowngrade` of reconciliation-service.mjs.
use infopunks_trust_layer_ag.Base.{
  ℕ, String, Bool, ◌||◌, Option, none, some, ◌==◌, ltb, to_lower_case, get_or_else, or_else,
  if◌then◌else◌,
}
use infopunks_trust_layer_ag.Storage.Settlement.{Update}

-- What a settlement event, or the verifier's answer about a receipt, carries.
pub record Payload : Type 0 where
  pub status : Option String
  pub settlement_status : Option String
  pub verifier_reference : Option String
  pub receipt_reference : Option String
  pub receipt_id : Option String
  pub reason : Option String

pub record Mapped : Type 0 where
  pub receipt_status : String
  pub settlement_status : String
  pub settled_at : Option ℕ
  pub reversed_at : Option ℕ
  pub last_error : Option String

unfoldable pub payload_status : Payload → String
payload_status p = to_lower_case (get_or_else (or_else p.status p.settlement_status) "pending")

unfoldable pub map_status : String → Option String → ℕ → Mapped
map_status status reason now =
    if status == "settled" || (status == "confirmed" || status == "paid")
    then record {
      receipt_status = "settled";
      settlement_status = "settled";
      settled_at = some now;
      reversed_at = none;
      last_error = none;
    }
    else if status == "failed"
        || (status == "reversed" || (status == "refunded" || status == "chargeback"))
    then record {
      receipt_status = "reversed";
      settlement_status = "reversed";
      settled_at = none;
      reversed_at = some now;
      last_error = some (get_or_else reason status);
    }
    else record {
      receipt_status = "verified";
      settlement_status = "provisional";
      settled_at = none;
      reversed_at = none;
      last_error = none;
    }

unfoldable pub map_settlement : Payload → ℕ → Mapped
unfolding map_status
map_settlement p now = map_status (payload_status p) p.reason now

unfoldable pub status_rank : String → ℕ
status_rank status =
    if status == "provisional"
    then 1
    else if status == "settled" || status == "reversed"
    then 2
    else 0

unfoldable pub is_downgrade : String → String → Bool
unfolding status_rank
is_downgrade current next = ltb (status_rank next) (status_rank current)

abbrev pub update_of : Option String → Option String → Mapped → Update
update_of id reference m = record {
  receipt_id = id;
  verifier_reference = reference;
  receipt_status = m.receipt_status;
  settlement_status = m.settlement_status;
  settled_at = m.settled_at;
  reversed_at = m.reversed_at;
  last_error = m.last_error;
}
