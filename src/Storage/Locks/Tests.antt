-- ===== src/Storage/Locks/Tests.antt =====
-- Witnesses for the locks: two workers and one lock.
use infopunks_trust_layer_ag.Base.{
  ◌≡◌, refl, ◌≢◌, eq_iff, String, false, some, List, [], ◌∷◌, arith,
}
use infopunks_trust_layer_ag.Storage.Locks.{LockRow, lock_row, get_lock, acquire_lock}
use infopunks_trust_layer_ag.Storage.Locks.Terms.{Takes, acquire_lock-Takes}
use infopunks_trust_layer_ag.Storage.Locks.Exclusion.{
  LockCall, acquire, renew, release, lock_run, acquire_lock-foreign,
}

abbrev held : List LockRow
held = lock_row "jobs" "w1" 60 1000 ∷ []

abbrev others : List LockCall
others = acquire "jobs" "w2" 60 2000 ∷ release "jobs" "w3" ∷ renew "jobs" "w2" 60 3000 ∷ []

w2 : ◌≢◌ {A = String} "w2" "w1"
w2 e = cc ((eq_iff "w2" "w1").1 e)

w3 : ◌≢◌ {A = String} "w3" "w1"
w3 e = cc ((eq_iff "w3" "w1").1 e)

acquire_lock-foreign_example :
    ((acquire_lock "jobs" "w2" 60 4000 (lock_run others held)).0 ≡ false)
    × (get_lock "jobs" (lock_run others held) ≡ some (lock_row "jobs" "w1" 60 1000))
unfolding get_lock
acquire_lock-foreign_example =
    acquire_lock-foreign others "jobs" "w2" 60 4000 (lock_row "jobs" "w1" 60 1000) held
      ((w2, omega arith), (w3, (w2, ((w2, omega arith), tt)))) refl

acquire_lock-Takes_example :
    Takes "jobs" "w2" 60 70000
      (get_lock "jobs" held)
      (acquire_lock "jobs" "w2" 60 70000 held).0
      (get_lock "jobs" (acquire_lock "jobs" "w2" 60 70000 held).1)
acquire_lock-Takes_example = acquire_lock-Takes "jobs" "w2" 60 70000 held
