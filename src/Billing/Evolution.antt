-- ===== src/Billing/Evolution.antt =====
-- How each call changes the receipts: rows may be added in front, and those that are there evolve.
use infopunks_trust_layer_ag.Base.{
  eq_join, same_key_join, find_row_ext, ℕ, ◌≡◌, ◌⊎◌, inl, inr, ◌∙◌, true, ◌||◌, Option, none, some,
  List, arith, truthy, text_of, find_row, update_rows, Distinct, Each, Each-refl, update_rows-Each,
  Bool-cases, Option-cases, to_lower_case,
}
use infopunks_trust_layer_ag.Storage.Tables.{ReceiptRow, receipt_clash}
use infopunks_trust_layer_ag.Storage.Receipts.{
  has_id, has_reference, get_receipt_by_id, get_receipt_by_verifier_reference,
}
use infopunks_trust_layer_ag.Storage.Settlement.{
  Update, Outcome, settle_row, settle_guard, is_changed, current_receipt, is_target,
  update_receipt_settlement,
}
use infopunks_trust_layer_ag.Billing.Stages.{
  Stage, receipt_status, settlement_status, Evolves, Evolves-refl, settle_row-Evolves,
}

-- A receipt that an update names clashes with every other that it names.
is_target_unique :
    (u : Update) (x y : ReceiptRow)
    → is_target u x ≡ true
    → is_target u y ≡ true
    → receipt_clash x y ≡ true
unfolding is_target receipt_clash
is_target_unique u x y p q = ground (
  arith,
  eq_join x.receipt_id y.receipt_id (text_of u.receipt_id),
  same_key_join x.verifier_reference y.verifier_reference u.verifier_reference,
)

-- The receipt that is looked up is the first that the update would write.
current_receipt-find_row :
    (u : Update) (rows : List ReceiptRow) {c : ReceiptRow}
    → current_receipt u rows ≡ some c
    → find_row (is_target u) rows ≡ some c
unfolding current_receipt is_target get_receipt_by_id get_receipt_by_verifier_reference
current_receipt-find_row u rows h = elim (Bool-cases (truthy u.receipt_id)) [
  | inl given ↦
      find_row_ext (is_target u) (has_id (text_of u.receipt_id)) rows (λ r. rw given) ∙ ground arith
  | inr absent ↦
      find_row_ext (is_target u) (has_reference u.verifier_reference) rows (λ r. rw absent)
      ∙ ground arith
]

abbrev pub guard_of : Update → ℕ → ReceiptRow → Option Outcome
guard_of u now c =
    settle_guard (to_lower_case c.settlement_status) (to_lower_case u.settlement_status)
      (is_changed c (settle_row u c now c))

-- Two ways through the store's settlement: the rows stay, or the named row is written.
pub update_receipt_settlement_cases :
    (u : Update) (now : ℕ) (rows : List ReceiptRow)
    → ((update_receipt_settlement u now rows).1 ≡ rows)
      ⊎ ((c : ReceiptRow) × (current_receipt u rows ≡ some c)
          × (guard_of u now c ≡ none)
          × ((update_receipt_settlement u now rows).1
              ≡ update_rows (is_target u) (settle_row u c now) rows))
unfolding update_receipt_settlement
update_receipt_settlement_cases u now rows = elim (Option-cases (current_receipt u rows)) [
  | inl missing ↦ inl (rw (missing, update_receipt_settlement))
  | inr (c, found) ↦ elim (Option-cases (guard_of u now c)) [
    | inr (why, stopped) ↦
        inl (rw (found, update_receipt_settlement) (rw (stopped, update_receipt_settlement)))
    | inl passed ↦ elim (Bool-cases (truthy u.receipt_id || truthy u.verifier_reference)) [
      | inl key ↦ inr (c, found, passed, rw (found, update_receipt_settlement) (rw passed (rw key)))
      | inr no_key ↦ inl (rw (found, update_receipt_settlement) (rw passed (rw no_key)))
    ]
  ]
]

pub update_receipt_settlement-Each :
    (g : Stage) (u : Update) (now : ℕ) (rows : List ReceiptRow)
    → u.receipt_status ≡ receipt_status g
    → u.settlement_status ≡ settlement_status g
    → Distinct receipt_clash rows
    → Each Evolves rows (update_receipt_settlement u now rows).1
update_receipt_settlement-Each g u now rows e f d =
    elim (update_receipt_settlement_cases u now rows) [
      | inl same ↦ rw same (Each-refl Evolves Evolves-refl rows)
      | inr (c, found, passed, written) ↦ rw written (
          update_rows-Each Evolves Evolves-refl receipt_clash (is_target u) (settle_row u c now)
            (is_target_unique u) rows d (current_receipt-find_row u rows found)
            (settle_row-Evolves g u c now _ e f passed))
    ]
