-- ===== src/Billing/Stages.antt =====
-- The life of a receipt: provisional, settled, reversed, and never back.
use infopunks_trust_layer_ag.Base.{
  ℕ, ◌≤◌, ◌≡◌, refl, inl, inr, ◌∙◌, ap, String, Bool, ◌||◌, Option, none, arith, ◌==◌, Bool-cases,
  to_lower_case,
}
use infopunks_trust_layer_ag.Storage.Tables.{ReceiptRow}
use infopunks_trust_layer_ag.Storage.Settlement.{Update, settle_row, settle_guard}
use infopunks_trust_layer_ag.Reconcile.Mapping.{map_status}

pub data Stage : Type 0 where
  provisional settled reversed : Stage

abbrev pub rank : Stage → ℕ
rank provisional = 0
rank settled = 1
rank reversed = 2

abbrev pub receipt_status : Stage → String
receipt_status provisional = "verified"
receipt_status settled = "settled"
receipt_status reversed = "reversed"

abbrev pub settlement_status : Stage → String
settlement_status provisional = "provisional"
settlement_status settled = "settled"
settlement_status reversed = "reversed"

-- The two status columns agree on the stage.
abbrev pub InStage : Stage → ReceiptRow → Type 0
InStage g r = (r.receipt_status ≡ receipt_status g) × (r.settlement_status ≡ settlement_status g)

-- What every write leaves of a receipt, and how its stage moves.
pub record Evolves (r r' : ReceiptRow) : Type 0 where
  pub same_id : r'.receipt_id ≡ r.receipt_id
  pub same_reference : r'.verifier_reference ≡ r.verifier_reference
  pub same_proof : r'.proof_id ≡ r.proof_id
  pub same_payer : r'.payer ≡ r.payer
  pub same_units : r'.billed_units ≡ r.billed_units
  pub same_time : r'.provisional_at ≡ r.provisional_at
  pub forward : (g : Stage) → InStage g r → (g' : Stage) × InStage g' r' × (rank g ≤ rank g')

pub Evolves-refl : (r : ReceiptRow) → Evolves r r
Evolves-refl r = record {
  same_id = refl;
  same_reference = refl;
  same_proof = refl;
  same_payer = refl;
  same_units = refl;
  same_time = refl;
  forward = λ g h. (g, h, omega arith);
}

pub Evolves-trans : (a b c : ReceiptRow) → Evolves a b → Evolves b c → Evolves a c
Evolves-trans a b c p q = record {
  same_id = q.same_id ∙ p.same_id;
  same_reference = q.same_reference ∙ p.same_reference;
  same_proof = q.same_proof ∙ p.same_proof;
  same_payer = q.same_payer ∙ p.same_payer;
  same_units = q.same_units ∙ p.same_units;
  same_time = q.same_time ∙ p.same_time;
  forward = λ g h.
      let (g', h', up) = p.forward g h in
      let (g'', h'', up') = q.forward g' h' in (g'', h'', omega arith);
}

-- Each mapped settlement stands for one stage.
pub map_status-stage :
    (status : String) (reason : Option String) (now : ℕ)
    → (g : Stage) × ((map_status status reason now).receipt_status ≡ receipt_status g)
      × ((map_status status reason now).settlement_status ≡ settlement_status g)
unfolding map_status
map_status-stage status reason now =
    elim (Bool-cases (status == "settled" || (status == "confirmed" || status == "paid"))) [
      | inl yes_settled ↦ (settled, ground arith, ground arith)
      | inr not_settled ↦
          elim (Bool-cases (
            status == "failed"
            || (status == "reversed" || (status == "refunded" || status == "chargeback")))) [
              | inl yes_reversed ↦ (reversed, ground arith, ground arith)
              | inr other ↦ (provisional, ground arith, ground arith)
            ]
    ]

to_lower_case-settlement_status :
    (g : Stage) → to_lower_case (settlement_status g) ≡ settlement_status g
unfolding to_lower_case
to_lower_case-settlement_status provisional = refl
to_lower_case-settlement_status settled = refl
to_lower_case-settlement_status reversed = refl

-- Where the guards let a write pass, the stage does not fall.
pub settle_guard-forward :
    (g g' : Stage) (changed : Bool)
    → settle_guard (settlement_status g) (settlement_status g') changed ≡ none
    → rank g ≤ rank g'
unfolding settle_guard
settle_guard-forward provisional g' changed h = omega arith
settle_guard-forward settled provisional changed h = cc
settle_guard-forward settled settled changed h = omega arith
settle_guard-forward settled reversed changed h = omega arith
settle_guard-forward reversed provisional changed h = cc
settle_guard-forward reversed settled changed h = cc
settle_guard-forward reversed reversed changed h = omega arith

-- A write of one stage that the guards let pass.
pub settle_row-Evolves :
    (g' : Stage) (u : Update) (r : ReceiptRow) (now : ℕ) (changed : Bool)
    → u.receipt_status ≡ receipt_status g'
    → u.settlement_status ≡ settlement_status g'
    → settle_guard (to_lower_case r.settlement_status) (to_lower_case u.settlement_status) changed
      ≡ none
    → Evolves r (settle_row u r now r)
unfolding settle_row
settle_row-Evolves g' u r now changed e f h = record {
  same_id = refl;
  same_reference = refl;
  same_proof = refl;
  same_payer = refl;
  same_units = refl;
  same_time = refl;
  forward = λ g i. (
    g',
    (e, f),
    settle_guard-forward g g' changed (
        rw
          (
            ap to_lower_case i.1,
            ap to_lower_case f,
            to_lower_case-settlement_status g,
            to_lower_case-settlement_status g',
          )
          at h),
  );
}
