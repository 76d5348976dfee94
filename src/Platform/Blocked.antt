-- ===== src/Platform/Blocked.antt =====
-- A passport that is blocked stays blocked.
use infopunks_trust_layer_ag.Base.{
  ℕ, ◌≡◌, refl, ap, ◌∙◌, ◌⊎◌, inl, inr, String, Bool, Option, none, some, List, [], ◌∷◌, ◌==◌,
  eq_iff, arith, find_row, text_of, update_rows, Bool-cases, Option-cases,
}
use infopunks_trust_layer_ag.Platform.Registry.{
  AppError, Attempt, returned, threw, PassportRow, Body, Registry, emit_event, remember, idempotent,
}
use infopunks_trust_layer_ag.Platform.Passports.{
  NewPassport, NewKey, is_subject, get_passport, revoked_error, suspended_error, usable,
  ensure_subject, new_passport, passport_guard, register_passport, status_row, has_passport_id,
  rotated_row, create_passport, set_passport_status, rotate_passport_key,
}
use infopunks_trust_layer_ag.Platform.Evidence.{
  NewEvidence, persist_evidence, accept_evidence, record_evidence,
}
use infopunks_trust_layer_ag.Platform.Calls.{
  Block, revoke, suspend, status_of, PlatformCall, create, block, rotate, evidence, apply,
  apply_all,
}

abbrev IsBlock : String → Type 0
IsBlock status = (status ≡ "revoked") ⊎ (status ≡ "suspended")

-- The passport of a subject is there, and is revoked or suspended.
abbrev BlockedRow : Option PassportRow → Type 0
BlockedRow none = ⊥
BlockedRow (some p) = IsBlock p.status

abbrev pub Blocked : String → Registry → Type 0
Blocked subject s = BlockedRow (find_row (is_subject subject) s.passports)

status_of-IsBlock : (b : Block) → IsBlock (status_of b)
status_of-IsBlock revoke = inl refl
status_of-IsBlock suspend = inr refl

-- An update that keeps the subjects, and leaves a status or blocks.
update_rows-BlockedRow :
    (subject : String) (p : PassportRow → Bool) (f : PassportRow → PassportRow)
    (rows : List PassportRow)
    → ((r : PassportRow) → (f r).subject_id ≡ r.subject_id)
    → ((r : PassportRow) → IsBlock r.status → IsBlock (f r).status)
    → BlockedRow (find_row (is_subject subject) rows)
    → BlockedRow (find_row (is_subject subject) (update_rows p f rows))
update_rows-BlockedRow subject p f [] same stays h = h
update_rows-BlockedRow subject p f (r ∷ rs) same stays h = elim (Bool-cases (p r)) [
  | inl hit ↦ rw hit (elim (Bool-cases (r.subject_id == subject)) [
    | inl mine ↦ rw (ap (λ x. x == subject) (same r) ∙ mine) (stays r (rw mine at h))
    | inr other ↦
        rw (ap (λ x. x == subject) (same r) ∙ other)
          (update_rows-BlockedRow subject p f rs same stays (rw other at h))
  ])
  | inr missed ↦ rw missed (elim (Bool-cases (r.subject_id == subject)) [
    | inl mine ↦ rw mine (rw mine at h)
    | inr other ↦ rw other (update_rows-BlockedRow subject p f rs same stays (rw other at h))
  ])
]

Attempt-cases :
    {A : Type 0} (o : Attempt A) → ((e : AppError) × (o ≡ threw e)) ⊎ ((a : A) × (o ≡ returned a))
Attempt-cases (threw e) = inl (e, refl)
Attempt-cases (returned a) = inr (a, refl)

module _ (subject : String) where
  -- A handler that keeps the subject blocked.
  abbrev KeepsBlocked : (Registry → Registry) → Type 0
  KeepsBlocked f = (s : Registry) → Blocked subject s → Blocked subject (f s)

  remember-Blocked :
      (key endpoint hash : String) (o : Attempt Body × Registry)
      → Blocked subject o.1
      → Blocked subject (remember key endpoint hash o).1
  unfolding remember
  remember-Blocked key endpoint hash (threw e, s) h = h
  remember-Blocked key endpoint hash (returned b, s) h = h

  idempotent-Blocked :
      (endpoint : String) (key : Option String) (hash : String)
      (handler : Registry → Attempt Body × Registry)
      → KeepsBlocked (λ s. (handler s).1)
      → KeepsBlocked (λ s. (idempotent endpoint key hash handler s).1)
  unfolding idempotent
  idempotent-Blocked endpoint key hash handler keeps s h =
      ground
        (arith, h, keeps s h, remember-Blocked (text_of key) endpoint hash (handler s) (keeps s h))

  set_passport_status-Blocked :
      (other : String) (b : Block) (now : ℕ)
      → KeepsBlocked (λ s. (set_passport_status other (status_of b) now s).1)
  unfolding set_passport_status emit_event
  set_passport_status-Blocked other b now s h = elim (Option-cases (get_passport other s)) [
    | inl missing ↦ rw (missing, set_passport_status) h
    | inr (p, found) ↦
        rw (found, set_passport_status)
          (update_rows-BlockedRow subject (is_subject other) (status_row (status_of b) now p)
            s.passports (λ r. refl) (λ r k. status_of-IsBlock b) h)
  ]

  rotate_passport_key-Blocked :
      (other : String) (key : NewKey) (reason : Option String) (now : ℕ)
      → KeepsBlocked (λ s. (rotate_passport_key other key reason now s).1)
  unfolding rotate_passport_key emit_event
  rotate_passport_key-Blocked other key reason now s h =
      elim (Attempt-cases (ensure_subject other s)) [
        | inl (e, refused) ↦ rw (refused, rotate_passport_key) h
        | inr (p, accepted) ↦
            rw (accepted, rotate_passport_key)
              (ground (
                arith,
                h,
                update_rows-BlockedRow subject (has_passport_id p.passport_id)
                    (rotated_row reason now p) s.passports (λ r. refl) (λ r k. k) h,
              ))
      ]

  register_passport-Blocked :
      (input : NewPassport) (id : String) (now : ℕ)
      → KeepsBlocked (λ s. (register_passport input id now s).1)
  unfolding register_passport emit_event new_passport passport_guard get_passport
  register_passport-Blocked input id now s h = ground (arith, h, eq_iff input.subject_id subject)

  persist_evidence-Blocked :
      (input : NewEvidence) (id : String) (now : ℕ) → KeepsBlocked (persist_evidence input id now)
  unfolding persist_evidence emit_event
  persist_evidence-Blocked input id now s h = h

  accept_evidence-Blocked :
      (input : NewEvidence) (id : String) (now : ℕ)
      → KeepsBlocked (λ s. (accept_evidence input id now s).1)
  unfolding accept_evidence
  accept_evidence-Blocked input id now s h = ground (
    arith,
    h,
    persist_evidence-Blocked input id now s h,
    set_passport_status-Blocked input.subject_id revoke now (persist_evidence input id now s)
        (persist_evidence-Blocked input id now s h),
  )

  apply-Blocked : (c : PlatformCall) → KeepsBlocked (apply c)
  unfolding apply create_passport record_evidence
  apply-Blocked (create input key hash id now) s h =
      idempotent-Blocked "/v1/passports" key hash (register_passport input id now)
        (register_passport-Blocked input id now) s h
  apply-Blocked (block other b now) s h = set_passport_status-Blocked other b now s h
  apply-Blocked (rotate other key reason now) s h =
      rotate_passport_key-Blocked other key reason now s h
  apply-Blocked (evidence input key hash id now) s h =
      idempotent-Blocked "/v1/evidence" key hash (accept_evidence input id now)
        (accept_evidence-Blocked input id now) s h

  apply_all-Blocked : (calls : List PlatformCall) → KeepsBlocked (apply_all calls)
  unfolding apply_all
  apply_all-Blocked [] s h = h
  apply_all-Blocked (c ∷ cs) s h = apply_all-Blocked cs (apply c s) (apply-Blocked c s h)

blocked_answer :
    (o : Option PassportRow)
    → BlockedRow o
    → (e : AppError) × (usable o ≡ threw e) × (e.status_code ≡ 409)
unfolding usable
blocked_answer none k = absurd k
blocked_answer (some p) (inl k) = (revoked_error, rw k refl, refl)
blocked_answer (some p) (inr k) = (suspended_error, rw k refl, refl)

-- Once the passport of a subject is revoked or suspended, ensureSubject throws for this subject
-- with the status 409 after any history of registrations, revocations, suspensions, key rotations
-- and evidence.
pub ensure_subject-apply_all :
    (subject : String) (calls : List PlatformCall) (s : Registry)
    → Blocked subject s
    → (e : AppError) × (ensure_subject subject (apply_all calls s) ≡ threw e)
      × (e.status_code ≡ 409)
unfolding ensure_subject get_passport
ensure_subject-apply_all subject calls s h = blocked_answer _ (apply_all-Blocked subject calls s h)
