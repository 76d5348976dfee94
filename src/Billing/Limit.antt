-- ===== src/Billing/Limit.antt =====
-- The invariant of the receipts, and the daily spend through any history of calls.
use infopunks_trust_layer_ag.Base.{ℕ, ◌≤◌, ◌≡◌, String, Bool, true, false, List, All, Distinct}
use infopunks_trust_layer_ag.Storage.Tables.{ReceiptRow, receipt_clash, day_prefix}
use infopunks_trust_layer_ag.Storage.Receipts.{spend_by_day}
use infopunks_trust_layer_ag.Billing.Stages.{Stage, provisional, settled, reversed, InStage}
use infopunks_trust_layer_ag.Billing.History.{Call, reserve, settle, describe, trace}

abbrev pub Staged : ReceiptRow → Type 0
Staged r = (g : Stage) × InStage g r

-- No two receipts share an id, a proof or a reference, and each is at one stage.
pub record IsSound (rows : List ReceiptRow) : Type 0 where
  pub distinct : Distinct receipt_clash rows
  pub staged : All Staged rows

counts : Stage → Bool
counts provisional = true
counts settled = true
counts reversed = false

-- The limits that the reservations of one payer on one day are made under.
abbrev pub IsWithin : String → ℕ → ℕ → Call → Type 0
IsWithin payer day limit (reserve q c) =
    q.payer ≡ payer → day_prefix c.now ≡ day → q.spend_limit_units ≤ limit
IsWithin payer day limit (settle p mapped_at now) = Unit
IsWithin payer day limit (describe id patch now) = Unit
IsWithin payer day limit (trace id internal now) = Unit

-- What is kept, for one payer and one day.
abbrev pub Keeps : String → ℕ → ℕ → List ReceiptRow → Type 0
Keeps payer day limit rows = IsSound rows × (spend_by_day payer day rows ≤ limit)
