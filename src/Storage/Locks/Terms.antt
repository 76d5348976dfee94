-- ===== src/Storage/Locks/Terms.antt =====
-- What `acquireLock` and `renewLock` answer, and the row of the lock then.
use native.Mathlib.Nat.{zero-add}
use infopunks_trust_layer_ag.Base.{
  ℕ, ◌+◌, ◌*◌, ◌≤◌, ◌<◌, ◌≡◌, refl, ◌≢◌, ◌⊎◌, inl, inr, String, Bool, true, false, Option, none,
  some, List, [], ◌∷◌, arith, ◌==◌, eq_iff, eq_join, ltb, leb, any, find_row, find_row-test,
  update_rows, count_rows, Distinct, Bool-cases, Option-cases, if◌then◌else◌,
}
use infopunks_trust_layer_ag.Storage.Locks.{
  LockRow, is_named, is_live, get_lock, lock_row, upsert_lock, acquire_lock, renew_lock,
}

-- What taking a lock answers, and whose it is then.
abbrev pub Takes : String → String → ℕ → ℕ → Option LockRow → Bool → Option LockRow → Type 0
Takes name owner ttl now none answer after =
    (answer ≡ true) × (after ≡ some (lock_row name owner ttl now))
Takes name owner ttl now (some l) answer after =
    ((l.expires_at < now) × (answer ≡ true) × (after ≡ some (lock_row name owner ttl now)))
    ⊎ ((now ≤ l.expires_at) × (answer ≡ (l.owner_id == owner)) × (after ≡ some l))

own_name : (s : String) → (s == s) ≡ true
own_name s = (eq_iff s s).1 refl

abbrev take_over : LockRow → LockRow → LockRow
take_over row l = if ltb l.expires_at row.updated_at then row else l

take_over-named :
    (name owner : String) (ttl now : ℕ) (l : LockRow)
    → is_named name l ≡ true
    → is_named name (take_over (lock_row name owner ttl now) l) ≡ true
take_over-named name owner ttl now l h = ground (arith, own_name name)

-- An update of the rows of a name, seen from that name.
update_rows-named :
    (name : String) (f : LockRow → LockRow) (l : LockRow) (locks : List LockRow)
    → is_named name (f l) ≡ true
    → find_row (is_named name) locks ≡ some l
    → find_row (is_named name) (update_rows (is_named name) f locks) ≡ some (f l)
update_rows-named name f l [] h e = cc
update_rows-named name f l (r ∷ rs) h e = ground (arith, update_rows-named name f l rs h)

-- A lock that is free or has run out is taken for the whole term; one that has not stays as it is,
-- and the answer is whether the caller already owns it.
pub acquire_lock-Takes :
    (name owner : String) (ttl now : ℕ) (locks : List LockRow)
    → Takes name owner ttl now
        (get_lock name locks)
        (acquire_lock name owner ttl now locks).0
        (get_lock name (acquire_lock name owner ttl now locks).1)
unfolding acquire_lock
acquire_lock-Takes name owner ttl now locks = elim (Option-cases (get_lock name locks)) [
  | inl free ↦ rw (free, upsert_lock) (rw (own_name name) (rw (own_name owner) (refl, refl)))
  | inr (l, taken) ↦
      rw (taken, upsert_lock)
        (rw
          (update_rows-named name (take_over (lock_row name owner ttl now)) l locks
            (take_over-named name owner ttl now l (find_row-test (is_named name) l locks taken))
            taken)
          (elim (Bool-cases (ltb l.expires_at now)) [
            | inl over ↦ inl (ground arith, rw over (own_name owner), rw over)
            | inr live ↦ inr (ground arith, rw live, rw live)
          ]))
]

-- `lock_name TEXT PRIMARY KEY`
abbrev pub same_name : LockRow → LockRow → Bool
same_name a b = a.lock_name == b.lock_name

-- What renewing a lock answers, and its row then.
abbrev pub Renews : String → ℕ → ℕ → Option LockRow → Bool → Option LockRow → Type 0
Renews owner ttl now none answer after = (answer ≡ false) × (after ≡ none)
Renews owner ttl now (some l) answer after =
    ((l.owner_id ≡ owner)
      × (now ≤ l.expires_at)
      × (answer ≡ true)
      × (after ≡ some (record l { expires_at = now + ttl * 1000; updated_at = now })))
    ⊎ (((l.owner_id ≢ owner) ⊎ (l.expires_at < now)) × (answer ≡ false) × (after ≡ some l))

-- Behind the row of a name there is no other of that name, so none that is live.
no_other_row :
    (name owner : String) (now : ℕ) (r : LockRow) (rs : List LockRow)
    → (r.lock_name == name) ≡ true
    → any (same_name r) rs ≡ false
    → count_rows (is_live name owner now) rs ≡ 0
no_other_row name owner now r [] named d = refl
no_other_row name owner now r (x ∷ xs) named d =
    ground (arith, eq_join r.lock_name x.lock_name name, no_other_row name owner now r xs named)

-- In a table with at most one row of each name, the owner of a lock that has not run out prolongs
-- it and is told yes; in every other case the answer is no and the row of the lock stays as it is.
pub renew_lock-Renews :
    (name owner : String) (ttl now : ℕ) (locks : List LockRow)
    → Distinct same_name locks
    → Renews owner ttl now
        (get_lock name locks)
        (renew_lock name owner ttl now locks).0
        (get_lock name (renew_lock name owner ttl now locks).1)
unfolding renew_lock get_lock
renew_lock-Renews name owner ttl now [] d = (refl, refl)
renew_lock-Renews name owner ttl now (r ∷ rs) d = elim (Bool-cases (r.lock_name == name)) [
  | inr other ↦ rw (other, zero-add, other) (renew_lock-Renews name owner ttl now rs d.1)
  | inl named ↦
      rw (named, no_other_row name owner now r rs named d.0)
        (elim (Bool-cases (r.owner_id == owner)) [
          | inr other ↦
              rw (other, named)
                (inr (inl (λ e. cc (other, (eq_iff r.owner_id owner).1 e)), refl, refl))
          | inl own ↦ elim (Bool-cases (leb now r.expires_at)) [
            | inl live ↦
                rw (own, live, named)
                  (inl ((eq_iff r.owner_id owner).0 own, ground arith, refl, refl))
            | inr over ↦ rw (own, over, named) (inr (inr (ground arith), refl, refl))
          ]
        ])
]
