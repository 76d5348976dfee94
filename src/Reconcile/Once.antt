-- ===== src/Reconcile/Once.antt =====
-- `ReconciliationService.reconcileOnce` of reconciliation-service.mjs.
use infopunks_trust_layer_ag.Base.{
  ℕ, suc, ◌+◌, String, Bool, true, false, Option, none, some, List, [], ◌∷◌, truthy, text_of,
  length, if◌then◌else◌,
}
use infopunks_trust_layer_ag.Storage.Tables.{ReceiptRow}
use infopunks_trust_layer_ag.Storage.Receipts.{list_unsettled_receipts}
use infopunks_trust_layer_ag.Storage.Settlement.{update_receipt_settlement}
use infopunks_trust_layer_ag.Storage.Locks.{LockRow, acquire_lock, renew_lock, release_lock}
use infopunks_trust_layer_ag.Reconcile.Mapping.{Payload, map_settlement, update_of}
use infopunks_trust_layer_ag.Reconcile.Apply.{was_updated}

-- The tables that reconciliation shares with the other workers.
pub record World : Type 0 where
  pub receipts : List ReceiptRow
  pub locks : List LockRow

-- The payment verifier's answer about one receipt; the call may also throw.
pub data Answer : Type 0 where
  throws : Answer
  status : Option Payload → Answer

-- What surrounds the loop, by the round. `others k` is what other workers have written to the
-- tables before round `k`, and `meanwhile k` what they write while the verifier answers; `clock k`
-- is the time at the start of the round, and `answered_at k` the time after the answer.
pub record Surroundings : Type 0 where
  pub answers : ℕ → String → Answer
  pub others : ℕ → World → World
  pub meanwhile : ℕ → World → World
  pub clock : ℕ → ℕ
  pub answered_at : ℕ → ℕ

pub data Report : Type 0 where
  lock_held : Report
  -- Receipts checked, receipts updated, and whether the lock was lost on the way.
  finished : ℕ → ℕ → Bool → Report
  failed : Report

abbrev pub lock_name : String
lock_name = "x402_reconciliation"

-- The loop's end: updated receipts, `lostLock`, and whether the verifier threw.
pub record Progress : Type 0 where
  pub updated : ℕ
  pub lost_lock : Bool
  pub thrown : Bool
  pub world : World

abbrev add_update : Bool → Progress → Progress
add_update changed p = record p { updated = (if changed then 1 else 0) + p.updated }

-- A receipt's turn: the verifier threw, or the receipt was updated or left.
pub data Turn : Type 0 where
  threw : World → Turn
  took : Bool → World → Turn

module _ (env : Surroundings) (worker : String) (ttl : ℕ) where
  -- One receipt, once the lock is renewed.
  unfoldable pub settle_one : ℕ → ReceiptRow → World → Turn
  settle_one k receipt w =
      if truthy receipt.verifier_reference
      then elim (env.answers k (text_of receipt.verifier_reference)) [
        | throws ↦ threw (env.meanwhile k w)
        | status none ↦ took false (env.meanwhile k w)
        | status (some payload) ↦
            let now = env.meanwhile k w in
            let (outcome, rows) =
              update_receipt_settlement
                (update_of (some receipt.receipt_id) receipt.verifier_reference
                  (map_settlement payload (env.answered_at k)))
                (env.answered_at k) now.receipts in
            took (was_updated outcome) (record now { receipts = rows })
      ]
      else took false w

  unfoldable pub reconcile_loop : ℕ → List ReceiptRow → World → Progress
  reconcile_loop k [] w = record { updated = 0; lost_lock = false; thrown = false; world = w }
  reconcile_loop k (receipt ∷ rest) w =
      let before = env.others k w in
      let (renewed, locks) = renew_lock lock_name worker ttl (env.clock k) before.locks in
      let here = record before { locks = locks } in
      elim renewed [
        | false ↦ record { updated = 0; lost_lock = true; thrown = false; world = here }
        | true ↦ elim (settle_one k receipt here) [
          | threw w' ↦ record { updated = 0; lost_lock = false; thrown = true; world = w' }
          | took changed w' ↦ add_update changed (reconcile_loop (suc k) rest w')
        ]
      ]

  -- `now` is the time of the attempt to take the lock. The release is the `finally` block.
  unfoldable pub reconcile_once : ℕ → ℕ → World → Report × World
  unfolding reconcile_loop
  reconcile_once limit now w =
      let (acquired, locks) = acquire_lock lock_name worker ttl now w.locks in
      let held = record w { locks = locks } in
      if acquired then finish (reconcile_loop 0 (unsettled held) held) held else (lock_held, held)
    where
      unsettled : World → List ReceiptRow
      unsettled held = list_unsettled_receipts limit held.receipts

      finish : Progress → World → Report × World
      finish p held = (
        if p.thrown then failed else finished (length (unsettled held)) p.updated p.lost_lock,
        record p.world { locks = release_lock lock_name worker p.world.locks },
      )
