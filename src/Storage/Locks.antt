-- ===== src/Storage/Locks.antt =====
-- `acquireLock`, `renewLock` and `releaseLock` of state-store.mjs.
pub mod Terms
pub mod Exclusion
mod Tests
use infopunks_trust_layer_ag.Base.{
  ℕ, ◌+◌, ◌*◌, String, Bool, false, not, ◌&&◌, Option, none, some, List, ◌∷◌, ◌==◌, ltb, leb,
  find_row, filter, update_rows, count_rows, if◌then◌else◌,
}

pub record LockRow : Type 0 where
  pub lock_name : String
  pub owner_id : String
  pub expires_at : ℕ
  pub updated_at : ℕ

abbrev pub is_named : String → LockRow → Bool
is_named name l = l.lock_name == name

abbrev pub is_held : String → String → LockRow → Bool
is_held name owner l = l.lock_name == name && l.owner_id == owner

unfoldable pub get_lock : String → List LockRow → Option LockRow
get_lock name locks = find_row (is_named name) locks

abbrev pub lock_row : String → String → ℕ → ℕ → LockRow
lock_row name owner ttl now = record {
  lock_name = name;
  owner_id = owner;
  expires_at = now + ttl * 1000;
  updated_at = now;
}

-- The upsert: it takes over a row only if that has run out.
unfoldable pub upsert_lock : LockRow → List LockRow → List LockRow
unfolding get_lock
upsert_lock row locks = elim (get_lock row.lock_name locks) [
  | none ↦ row ∷ locks
  | some _ ↦
      update_rows (is_named row.lock_name) (λ l. if ltb l.expires_at row.updated_at then row else l)
        locks
]

abbrev pub owned_by : String → Option LockRow → Bool
owned_by owner none = false
owned_by owner (some l) = l.owner_id == owner

unfoldable pub acquire_lock : String → String → ℕ → ℕ → List LockRow → Bool × List LockRow
unfolding upsert_lock
acquire_lock name owner ttl now locks =
    let locks' = upsert_lock (lock_row name owner ttl now) locks in
    (owned_by owner (get_lock name locks'), locks')

unfoldable pub release_lock : String → String → List LockRow → List LockRow
release_lock name owner locks = filter (λ l. not (is_held name owner l)) locks

abbrev pub is_live : String → String → ℕ → LockRow → Bool
is_live name owner now l = is_held name owner l && leb now l.expires_at

unfoldable pub renew_lock : String → String → ℕ → ℕ → List LockRow → Bool × List LockRow
renew_lock name owner ttl now locks = (
  ltb 0 (count_rows (is_live name owner now) locks),
  update_rows (is_live name owner now)
      (λ l. record l { expires_at = now + ttl * 1000; updated_at = now }) locks,
)
