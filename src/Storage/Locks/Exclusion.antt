-- ===== src/Storage/Locks/Exclusion.antt =====
-- A lock through any sequence of calls of other workers.
use infopunks_trust_layer_ag.Base.{
  ℕ, ◌≤◌, ◌≡◌, refl, ◌≢◌, ◌⊎◌, inl, inr, ap, String, Bool, true, false, Option, some, List, [], ◌∷◌,
  ◌++◌, arith, ◌==◌, eq_iff, All, find_row, filter, update_rows, Bool-cases, Option-cases,
}
use infopunks_trust_layer_ag.Storage.Locks.{
  LockRow, is_named, get_lock, upsert_lock, acquire_lock, release_lock, renew_lock,
}
use infopunks_trust_layer_ag.Storage.Locks.Terms.{Takes, acquire_lock-Takes}

pub data LockCall : Type 0 where
  acquire : String → String → ℕ → ℕ → LockCall
  renew : String → String → ℕ → ℕ → LockCall
  release : String → String → LockCall

unfoldable pub lock_step : LockCall → List LockRow → List LockRow
lock_step (acquire name owner ttl now) locks = (acquire_lock name owner ttl now locks).1
lock_step (renew name owner ttl now) locks = (renew_lock name owner ttl now locks).1
lock_step (release name owner) locks = release_lock name owner locks

unfoldable pub lock_run : List LockCall → List LockRow → List LockRow
lock_run [] locks = locks
lock_run (c ∷ cs) locks = lock_run cs (lock_step c locks)

-- A call of another owner than the holder, at a time at which the lock has not run out.
abbrev pub IsForeign : LockRow → LockCall → Type 0
IsForeign l (acquire name owner ttl now) = (owner ≢ l.owner_id) × (now ≤ l.expires_at)
IsForeign l (renew name owner ttl now) = owner ≢ l.owner_id
IsForeign l (release name owner) = owner ≢ l.owner_id

-- A row that an update leaves is still the first of its name.
update_rows-find_row :
    (name : String) (t : LockRow → Bool) (f : LockRow → LockRow) (l : LockRow)
    (locks : List LockRow)
    → ((r : LockRow) → t r ≡ true → (f r).lock_name ≡ r.lock_name)
    → (t l ≡ false) ⊎ (f l ≡ l)
    → find_row (is_named name) locks ≡ some l
    → find_row (is_named name) (update_rows t f locks) ≡ some l
update_rows-find_row name t f l [] keep h e = cc
update_rows-find_row name t f l (r ∷ rs) keep h e =
    ground (arith, keep r, update_rows-find_row name t f l rs keep h)

filter-find_row :
    (name : String) (t : LockRow → Bool) (l : LockRow) (locks : List LockRow)
    → t l ≡ true
    → find_row (is_named name) locks ≡ some l
    → find_row (is_named name) (filter t locks) ≡ some l
filter-find_row name t l [] h e = cc
filter-find_row name t l (r ∷ rs) h e = ground (arith, filter-find_row name t l rs h)

-- The holder's row under one call of another.
pub lock_step-foreign :
    (c : LockCall) (name : String) (l : LockRow) (locks : List LockRow)
    → IsForeign l c
    → get_lock name locks ≡ some l
    → get_lock name (lock_step c locks) ≡ some l
unfolding lock_step acquire_lock upsert_lock renew_lock release_lock get_lock
lock_step-foreign (acquire other owner ttl now) name l locks (ne, early) e =
    elim (Option-cases (get_lock other locks)) [
      | inl free ↦
          rw (free, upsert_lock)
            (elim (Bool-cases (other == name)) [
              | inl same ↦ cc (free, e, ap (λ n. get_lock n locks) ((eq_iff other name).0 same))
              | inr differs ↦ rw differs e
            ])
      | inr (r, taken) ↦
          rw (taken, upsert_lock)
            (update_rows-find_row name (is_named other) _ l locks
              (λ x h. ground (arith, eq_iff x.lock_name other)) (inr (ground arith)) e)
    ]
lock_step-foreign (renew other owner ttl now) name l locks ne e =
    update_rows-find_row name _ _ l locks (λ r h. refl)
      (inl (ground (arith, eq_iff l.owner_id owner))) e
lock_step-foreign (release other owner) name l locks ne e =
    filter-find_row name _ l locks (ground (arith, eq_iff l.owner_id owner)) e

-- While a lock has not run out, no calls of other workers take it, prolong it or remove it.
pub lock_run-foreign :
    (cs : List LockCall) (name : String) (l : LockRow) (locks : List LockRow)
    → All (IsForeign l) cs
    → get_lock name locks ≡ some l
    → get_lock name (lock_run cs locks) ≡ some l
unfolding lock_run
lock_run-foreign [] name l locks h e = e
lock_run-foreign (c ∷ cs) name l locks h e =
    lock_run-foreign cs name l (lock_step c locks) h.1 (lock_step-foreign c name l locks h.0 e)

module _ (l : LockRow) (c : LockCall) where
  All-front : (cs : List LockCall) → All (IsForeign l) (cs ++ c ∷ []) → All (IsForeign l) cs
  All-front [] h = tt
  All-front (d ∷ cs) h = (h.0, All-front cs h.1)

  All-last : (cs : List LockCall) → All (IsForeign l) (cs ++ c ∷ []) → IsForeign l c
  All-last [] h = h.0
  All-last (d ∷ cs) h = All-last cs h.1

refused :
    (name owner : String) (ttl now : ℕ) (l : LockRow) (locks : List LockRow)
    → IsForeign l (acquire name owner ttl now)
    → get_lock name locks ≡ some l
    → Takes name owner ttl now
        (get_lock name locks)
        (acquire_lock name owner ttl now locks).0
        (get_lock name (acquire_lock name owner ttl now locks).1)
    → (acquire_lock name owner ttl now locks).0 ≡ false
refused name owner ttl now l locks (ne, early) e t = answer (rw e at t)
  where
    answer : {a : Bool} {o : Option LockRow} → Takes name owner ttl now (some l) a o → a ≡ false
    answer (inl over) = absurd (omega arith)
    answer (inr live) = ground (arith, eq_iff l.owner_id owner)

-- While a lock has not run out, whatever acquisitions, renewals and releases other owners try, its
-- row stays as it is, and another owner that tries for it then is told no.
pub acquire_lock-foreign :
    (cs : List LockCall) (name owner : String) (ttl now : ℕ) (l : LockRow) (locks : List LockRow)
    → All (IsForeign l) (cs ++ acquire name owner ttl now ∷ [])
    → get_lock name locks ≡ some l
    → ((acquire_lock name owner ttl now (lock_run cs locks)).0 ≡ false)
      × (get_lock name (lock_run cs locks) ≡ some l)
acquire_lock-foreign cs name owner ttl now l locks h e =
    let kept = lock_run-foreign cs name l locks (All-front l _ cs h) e in
    (
      refused name owner ttl now l (lock_run cs locks) (All-last l _ cs h) kept
          (acquire_lock-Takes name owner ttl now (lock_run cs locks)),
      kept,
    )
