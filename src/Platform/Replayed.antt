-- ===== src/Platform/Replayed.antt =====
-- The response of an idempotency key is given again.
use infopunks_trust_layer_ag.Base.{
  ℕ, ◌≡◌, ◌≢◌, refl, sym, ap, ◌∙◌, ◌⊎◌, inl, inr, String, true, Option, some, List, [], ◌∷◌, ◌==◌,
  eq_iff, arith, find_row, find_row-test, truthy, text_of, Bool-cases, Option-cases,
}
use infopunks_trust_layer_ag.Platform.Registry.{
  Attempt, returned, threw, Body, KeyedResponse, Registry, emit_event, has_key, replayed, remember,
  conflict_error, idempotent,
}
use infopunks_trust_layer_ag.Platform.Passports.{
  NewPassport, NewKey, register_passport, create_passport, set_passport_status, rotate_passport_key,
}
use infopunks_trust_layer_ag.Platform.Evidence.{
  NewEvidence, persist_evidence, accept_evidence, record_evidence,
}
use infopunks_trust_layer_ag.Platform.Calls.{
  PlatformCall, create, block, rotate, evidence, status_of, apply, apply_all,
}

-- A call that leaves the table of keys.
abbrev Leaves : (Registry → Attempt Body × Registry) → Type 0
Leaves handler = (s : Registry) → (handler s).1.idempotency_keys ≡ s.idempotency_keys

register_passport-Leaves :
    (input : NewPassport) (id : String) (now : ℕ) → Leaves (register_passport input id now)
unfolding register_passport emit_event
register_passport-Leaves input id now s = ground arith

set_passport_status-keys :
    (subject status : String) (now : ℕ) (s : Registry)
    → (set_passport_status subject status now s).1.idempotency_keys ≡ s.idempotency_keys
unfolding set_passport_status emit_event
set_passport_status-keys subject status now s = ground arith

accept_evidence-Leaves :
    (input : NewEvidence) (id : String) (now : ℕ) → Leaves (accept_evidence input id now)
unfolding accept_evidence persist_evidence emit_event set_passport_status
accept_evidence-Leaves input id now s = ground arith

-- The response is stored under its key.
abbrev pub Stored : KeyedResponse → Registry → Type 0
Stored r s = find_row (has_key r.key) s.idempotency_keys ≡ some r

module _ (endpoint : String) (key : Option String) (hash : String)
    (handler : Registry → Attempt Body × Registry) (leaves : Leaves handler) where
  idempotent-Stored :
      (r : KeyedResponse) (s : Registry)
      → Stored r s
      → Stored r (idempotent endpoint key hash handler s).1
  unfolding idempotent remember
  idempotent-Stored r s h = elim (Bool-cases (text_of key == r.key)) [
    | inl same ↦
        let mine : find_row (has_key (text_of key)) s.idempotency_keys ≡ some r =
          rw ((eq_iff (text_of key) r.key).0 same) h in
        ground (arith, mine, h, leaves s)
    | inr other ↦ ground (arith, other, h, leaves s)
  ]

  -- What the table holds after a call that returned.
  abbrev Kept : Body → Registry → Type 0
  Kept body s' =
      (r : KeyedResponse) × Stored r s'
      × (r.key ≡ text_of key)
      × (r.endpoint ≡ endpoint)
      × (r.request_hash ≡ hash)
      × (r.response_body ≡ body)

  replayed_matches :
      (r : KeyedResponse) (body : Body)
      → replayed endpoint hash r ≡ returned body
      → (r.endpoint ≡ endpoint) × (r.request_hash ≡ hash) × (r.response_body ≡ body)
  unfolding replayed
  replayed_matches r body h = ground (arith, eq_iff r.endpoint endpoint, eq_iff r.request_hash hash)

  found_first :
      (s : Registry) (body : Body) (r : KeyedResponse)
      → find_row (has_key (text_of key)) s.idempotency_keys ≡ some r
      → replayed endpoint hash r ≡ returned body
      → Kept body s
  found_first s body r f h =
      let same : r.key ≡ text_of key =
        (eq_iff r.key (text_of key)).0
          (find_row-test (has_key (text_of key)) r s.idempotency_keys f) in
      let (e, d, b) = replayed_matches r body h in
      (r, ap (λ k. find_row (has_key k) s.idempotency_keys) same ∙ f, same, e, d, b)

  new_first :
      (o : Attempt Body × Registry) (body : Body)
      → (remember (text_of key) endpoint hash o).0 ≡ returned body
      → Kept body (remember (text_of key) endpoint hash o).1
  unfolding remember
  new_first (threw e, s') body h = cc
  new_first (returned b, s') body h = (
    record { key = text_of key; endpoint = endpoint; request_hash = hash; response_body = b },
    rw ((eq_iff (text_of key) (text_of key)).1 refl) refl,
    refl,
    refl,
    refl,
    cc h,
  )

  Stored-first :
      (s : Registry) (body : Body)
      → truthy key ≡ true
      → (idempotent endpoint key hash handler s).0 ≡ returned body
      → Kept body (idempotent endpoint key hash handler s).1
  unfolding idempotent
  Stored-first s body t h =
      elim (Option-cases (find_row (has_key (text_of key)) s.idempotency_keys)) [
        | inr (r, f) ↦ rw (t, idempotent, f) (found_first s body r f (rw (t, idempotent, f) at h))
        | inl f ↦ rw (t, idempotent, f) (new_first (handler s) body (rw (t, idempotent, f) at h))
      ]

  -- A key that is stored answers alone.
  Stored-again :
      (r : KeyedResponse) (s : Registry)
      → Stored r s
      → truthy key ≡ true
      → text_of key ≡ r.key
      → idempotent endpoint key hash handler s ≡ (replayed endpoint hash r, s)
  unfolding idempotent
  Stored-again r s h t same =
      let mine : find_row (has_key (text_of key)) s.idempotency_keys ≡ some r = rw same h in
      rw (t, idempotent, mine) refl

rotate_passport_key-keys :
    (subject : String) (key : NewKey) (reason : Option String) (now : ℕ) (s : Registry)
    → (rotate_passport_key subject key reason now s).1.idempotency_keys ≡ s.idempotency_keys
unfolding rotate_passport_key emit_event
rotate_passport_key-keys subject key reason now s = ground arith

apply-Stored :
    (c : PlatformCall) (r : KeyedResponse) (s : Registry) → Stored r s → Stored r (apply c s)
unfolding apply create_passport record_evidence
apply-Stored (create input key hash id now) r s h =
    idempotent-Stored "/v1/passports" key hash (register_passport input id now)
      (register_passport-Leaves input id now) r s h
apply-Stored (block subject b now) r s h =
    rw (set_passport_status-keys subject (status_of b) now s) h
apply-Stored (rotate subject key reason now) r s h =
    rw (rotate_passport_key-keys subject key reason now s) h
apply-Stored (evidence input key hash id now) r s h =
    idempotent-Stored "/v1/evidence" key hash (accept_evidence input id now)
      (accept_evidence-Leaves input id now) r s h

apply_all-Stored :
    (calls : List PlatformCall) (r : KeyedResponse) (s : Registry)
    → Stored r s
    → Stored r (apply_all calls s)
unfolding apply_all
apply_all-Stored [] r s h = h
apply_all-Stored (c ∷ cs) r s h = apply_all-Stored cs r (apply c s) (apply-Stored c r s h)

-- What a request with a key that is taken is answered.
abbrev pub Again : String → String → Body → Attempt Body → Type 0
Again hash hash' body answer =
    ((hash' ≡ hash) × (answer ≡ returned body)) ⊎ ((hash' ≢ hash) × (answer ≡ threw conflict_error))

replayed-Again :
    (endpoint hash hash' : String) (body : Body) (r : KeyedResponse)
    → r.endpoint ≡ endpoint
    → r.request_hash ≡ hash
    → r.response_body ≡ body
    → Again hash hash' body (replayed endpoint hash' r)
unfolding replayed
replayed-Again endpoint hash hash' body r e d b = elim (Bool-cases (r.request_hash == hash')) [
  | inl same ↦ inl (
    sym ((eq_iff r.request_hash hash').0 same) ∙ d,
    rw (same, (eq_iff r.endpoint endpoint).1 e) (ap returned b),
  )
  | inr other ↦ inr ((λ q. cc (other, (eq_iff r.request_hash hash').1 (d ∙ sym q))), ground arith)
]

-- Once createPassport has returned under an idempotency key that is not empty, a later
-- createPassport under this key changes nothing, after any history of calls of passports and
-- evidence: it returns the same body if the hash of its request is the same, and throws
-- IDEMPOTENCY_CONFLICT if not.
pub create_passport-apply_all :
    (input input' : NewPassport) (key : Option String) (hash hash' id id' : String) (now later : ℕ)
    (calls : List PlatformCall) (s : Registry) (body : Body)
    → truthy key ≡ true
    → (create_passport input key hash id now s).0 ≡ returned body
    → let s' = apply_all calls (create_passport input key hash id now s).1 in
      let (answer, s'') = create_passport input' key hash' id' later s' in
      (s'' ≡ s') × Again hash hash' body answer
unfolding create_passport
create_passport-apply_all input input' key hash hash' id id' now later calls s body t h =
    let first = idempotent "/v1/passports" key hash (register_passport input id now) s in
    let (r, st, k, e, d, b) =
      Stored-first "/v1/passports" key hash (register_passport input id now)
        (register_passport-Leaves input id now) s body t h in
    let again =
      Stored-again "/v1/passports" key hash' (register_passport input' id' later)
        (register_passport-Leaves input' id' later) r (apply_all calls first.1)
        (apply_all-Stored calls r first.1 st) t (sym k) in
    rw again (refl, replayed-Again "/v1/passports" hash hash' body r e d b)
