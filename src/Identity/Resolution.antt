-- ===== src/Identity/Resolution.antt =====
-- What `resolveTarget` answers and creates, and the lock that it does not keep.
use infopunks_trust_layer_ag.Base.{
  ℕ, ◌≡◌, refl, ◌⊎◌, inl, inr, String, Bool, true, false, not, Option, none, some, List, [], ◌∷◌,
  arith, any, filter, Bool-cases, is_empty,
}
use infopunks_trust_layer_ag.Storage.Locks.{LockRow, is_held, acquire_lock, release_lock}
use infopunks_trust_layer_ag.Identity.Subject.{
  found, failed, create_failed, Answers, SubjectConfig, TargetOptions, Creating, TargetResolution,
  no_subject, resolved, refused, passed_on, Resolved, is_status, unknown_subject, create_and_look,
  bootstrap_creating, bootstrap_subject, bootstrap_locked, lock_name_of, should_auto_bootstrap,
  is_refused, resolve_target,
}

any-filter-not :
    {A : Type 0} (p : A → Bool) (xs : List A) → any p (filter (λ x. not (p x)) xs) ≡ false
any-filter-not p [] = refl
any-filter-not p (x ∷ xs) = ground (arith, any-filter-not p xs)

module _ (config : SubjectConfig) (subject : String) (o : TargetOptions) (owner : String) (now : ℕ)
    (others : List LockRow → List LockRow) (a : Answers) where
  -- The table of locks afterwards: as it was, or without a lock of this call, or with what the
  -- others wrote if the lock was not to be had.
  abbrev pub Released : Option (List LockRow) → Option (List LockRow) → Type 0
  Released none after = after ≡ none
  Released (some locks) none = ⊥
  Released (some locks) (some after) =
      let taken = acquire_lock (lock_name_of subject) owner 10 now locks in
      (after ≡ locks)
      ⊎ ((taken.0 ≡ true) × (any (is_held (lock_name_of subject) owner) after ≡ false))
      ⊎ ((taken.0 ≡ false) × (after ≡ others taken.1))

  kept_locks : (locks : Option (List LockRow)) → Released locks locks
  kept_locks none = refl
  kept_locks (some locks) = inl refl

  bootstrap_locked-Released :
      (locks : Option (List LockRow))
      → Released locks (bootstrap_locked config subject owner now others a locks).1
  unfolding bootstrap_locked release_lock
  bootstrap_locked-Released none = refl
  bootstrap_locked-Released (some locks) =
      elim (Bool-cases (acquire_lock (lock_name_of subject) owner 10 now locks).0) [
        | inl taken ↦ rw taken (
            inr (
              inl (
                refl,
                any-filter-not (is_held (lock_name_of subject) owner)
                    (others (acquire_lock (lock_name_of subject) owner 10 now locks).1),
              )))
        | inr missed ↦ rw missed (inr (inr (refl, refl)))
      ]

  -- Whatever the API answers, resolveTarget leaves the table of locks as it was, or with no lock of
  -- its own if it had acquired one, or just as the other workers wrote it if the lock was not to be
  -- had.
  pub resolve_target-Released :
      (locks : Option (List LockRow))
      → Released locks (resolve_target config subject o owner now others a locks).1
  unfolding resolve_target
  resolve_target-Released locks = ground (arith, kept_locks locks, bootstrap_locked-Released locks)

  -- What a creation that was asked for came to.
  abbrev Made : Creating → TargetResolution → Type 0
  Made c no_subject = ⊥
  Made c (refused e) = ⊥
  Made c (resolved t) =
      (t.created ≡ true) × (t.bootstrap ≡ c.bootstrap) × (a.after_create ≡ found t.passport)
  Made c (passed_on status) = (a.creation ≡ create_failed status) ⊎ (a.after_create ≡ failed status)

  abbrev Unmade : TargetResolution → Type 0
  Unmade no_subject = is_empty subject ≡ true
  Unmade (resolved t) =
      (t.created ≡ false)
      × (t.bootstrap ≡ none)
      × ((a.first ≡ found t.passport)
          ⊎ (a.after_wait ≡ found t.passport)
          ⊎ (a.before_create ≡ found t.passport))
  Unmade (refused e) =
      (e ≡ unknown_subject "Target subject is not registered.")
      × (a.first ≡ failed (some 404))
      × (is_refused config o ≡ true)
  Unmade (passed_on status) = (a.first ≡ failed status) × (is_status 404 status ≡ false)

  abbrev pub Explained : Resolved → Type 0
  Explained r = elim r.creating [
    | none ↦ Unmade r.resolution
    | some c ↦
        (a.first ≡ failed (some 404))
        × (is_refused config o ≡ false)
        × (c.subject_id ≡ subject)
        × ((should_auto_bootstrap config o ≡ true) × (c ≡ bootstrap_creating config subject)
            ⊎ (should_auto_bootstrap config o ≡ false) × (c.bootstrap ≡ none))
        × Made c r.resolution
  ]

  -- What resolveTarget answers and what it asks to be created are explained by the answers of the
  -- API and the options: it creates only after the first look-up failed with 404 and if the options
  -- allow it, the subject asked for, with a bootstrap exactly if the subject is to be bootstrapped;
  -- what it then answers is the passport looked up afterwards, or an error of the API. Without a
  -- creation it answers a passport that a look-up found, an UNKNOWN_SUBJECT error after a 404 if
  -- creation is not allowed, an error of the API other than 404, or nothing for an empty id.
  pub resolve_target-Explained :
      (locks : Option (List LockRow))
      → Explained (resolve_target config subject o owner now others a locks).0
  unfolding resolve_target bootstrap_locked bootstrap_subject create_and_look is_refused
      should_auto_bootstrap
  resolve_target-Explained locks = ground arith
