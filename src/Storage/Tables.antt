-- ===== src/Storage/Tables.antt =====
-- The tables of replay nonces and payment receipts (`initSchema` of state-store.mjs), with the
-- inserts that their UNIQUE indexes guard. Instants are milliseconds since the epoch, in place of
-- ISO texts of one length, which sort alike.
use infopunks_trust_layer_ag.Base.{
  ℕ, ◌/◌, String, Bool, ◌||◌, Option, none, some, List, ◌∷◌, ◌==◌, any, same_key, if◌then◌else◌,
}
use infopunks_trust_layer_ag.Base.Json.{Json}

pub record ReplayRow : Type 0 where
  pub nonce : String
  pub proof_id : Option String
  pub session_id : Option String
  pub payer : Option String
  pub tool_name : Option String
  pub first_seen_at : ℕ
  pub expires_at : ℕ
  pub verifier_reference : Option String
  pub payment_fingerprint : Option String

abbrev pub Metadata : Type 0
Metadata = List (String × Json)

pub record ReceiptRow : Type 0 where
  pub receipt_id : String
  pub verifier_reference : Option String
  pub proof_id : Option String
  pub session_id : Option String
  pub payer : String
  pub tool_name : String
  pub billed_units : ℕ
  pub receipt_status : String
  pub settlement_status : String
  pub provisional_at : ℕ
  pub settled_at : Option ℕ
  pub reversed_at : Option ℕ
  pub last_error : Option String
  pub adapter_trace_id : Option String
  pub internal_trace_id : Option String
  pub metadata : Metadata
  pub updated_at : ℕ

-- The two tables that a paid operation writes in one transaction.
pub record Payments : Type 0 where
  pub replay_nonces : List ReplayRow
  pub payment_receipts : List ReceiptRow

-- Two rows that the indexes of `replay_nonces` do not admit together.
unfoldable pub replay_clash : ReplayRow → ReplayRow → Bool
replay_clash a b =
    a.nonce == b.nonce
    || (same_key a.proof_id b.proof_id
        || (same_key a.verifier_reference b.verifier_reference
            || same_key a.payment_fingerprint b.payment_fingerprint))

unfoldable pub receipt_clash : ReceiptRow → ReceiptRow → Bool
receipt_clash a b =
    a.receipt_id == b.receipt_id
    || (same_key a.verifier_reference b.verifier_reference || same_key a.proof_id b.proof_id)

-- `none` is the UNIQUE error of SQLite.
unfoldable pub insert_unique {ℓ} : {A : Type ℓ} → (A → A → Bool) → A → List A → Option (List A)
insert_unique clash row rows = if any (clash row) rows then none else some (row ∷ rows)

unfoldable pub insert_replay_nonce : ReplayRow → List ReplayRow → Option (List ReplayRow)
unfolding insert_unique
insert_replay_nonce row rows = insert_unique replay_clash row rows

unfoldable pub insert_receipt : ReceiptRow → List ReceiptRow → Option (List ReceiptRow)
unfolding insert_unique
insert_receipt row rows = insert_unique receipt_clash row rows

-- `dayPrefix` of an instant: the number of its day.
unfoldable pub day_prefix : ℕ → ℕ
day_prefix instant = instant / 86400000
