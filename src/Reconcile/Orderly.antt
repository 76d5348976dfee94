-- ===== src/Reconcile/Orderly.antt =====
-- What a reconciliation run does to the receipts and to its lock, whatever the verifier answers and
-- other workers do meanwhile.
use infopunks_trust_layer_ag.Base.{
  ℕ, ◌≤◌, ◌≡◌, String, false, any, length, Distinct, Extends, kept, Each-refl,
}
use infopunks_trust_layer_ag.Storage.Tables.{receipt_clash}
use infopunks_trust_layer_ag.Storage.Receipts.{list_unsettled_receipts}
use infopunks_trust_layer_ag.Storage.Locks.{is_held, renew_lock}
use infopunks_trust_layer_ag.Reconcile.Once.{
  World, Surroundings, Report, lock_held, finished, failed, lock_name, Turn, threw, took,
}
use infopunks_trust_layer_ag.Billing.Stages.{Evolves, Evolves-refl}
use infopunks_trust_layer_ag.Billing.Growth.{Receipts}

-- From one state of the receipts to another: rows added in front, the rest evolved, none clashing.
abbrev pub Proceeds : Receipts → Receipts → Type 0
Proceeds xs ys = Distinct receipt_clash xs → Extends Evolves xs ys × Distinct receipt_clash ys

pub Proceeds-refl : (xs : Receipts) → Proceeds xs xs
Proceeds-refl xs d = (kept (Each-refl Evolves Evolves-refl xs), d)

-- Other workers too only add receipts and let them evolve.
pub record IsOrderly (env : Surroundings) : Type 0 where
  pub before : (k : ℕ) (w : World) → Proceeds w.receipts (env.others k w).receipts
  pub during : (k : ℕ) (w : World) → Proceeds w.receipts (env.meanwhile k w).receipts

abbrev world_of : Turn → World
world_of (threw w) = w
world_of (took changed w) = w

module _ (env : Surroundings) (worker : String) (ttl : ℕ) where
  -- The tables when a round begins, the lock renewed.
  abbrev here : ℕ → World → World
  here k w = record (env.others k w) {
    locks = (renew_lock lock_name worker ttl (env.clock k) (env.others k w).locks).1;
  }

-- What a run reports, and the tables that it leaves: it was skipped and wrote nothing, or it went
-- through the receipts, updated no more than it checked, and holds the lock no longer.
abbrev pub Runs : String → ℕ → World → Report × World → Type 0
Runs worker limit w (lock_held, w') = w'.receipts ≡ w.receipts
Runs worker limit w (finished checked updated lost, w') =
    (updated ≤ checked)
    × (checked ≡ length (list_unsettled_receipts limit w.receipts))
    × (any (is_held lock_name worker) w'.locks ≡ false)
Runs worker limit w (failed, w') = any (is_held lock_name worker) w'.locks ≡ false
