-- ===== src/Guard/Keys.antt =====
-- A key of the guard belongs for good to the request that claimed it first.
use infopunks_trust_layer_ag.Base.{
  ℕ, ◌≡◌, refl, sym, ◌∙◌, ap, inl, inr, String, true, false, Option, none, some, List, [], ◌∷◌,
  ◌==◌, eq_iff, All, Bool-cases, Option-cases,
}
use infopunks_trust_layer_ag.Guard.Record.{Record, Claim, Claimed, granted, conflict}
use infopunks_trust_layer_ag.Guard.Memory.{Records, updated_record, memory_reserve, map_get}
use infopunks_trust_layer_ag.Guard.Store.{
  IdempotencyRow, reserve_idempotency_key, get_idempotency_record,
}
use infopunks_trust_layer_ag.Guard.Spec.{
  Book, StoreCall, claim, finish, look, StoreAnswer, claimed, found, claim_answer, spec_call,
  memory_call, store_call, write,
}
use infopunks_trust_layer_ag.Guard.Refines.{Agrees, Simulates, memory_call-Simulates, All-unit}
use infopunks_trust_layer_ag.Guard.Agreement.{HasResponse, store_call-Simulates}

-- The state of a store after a sequence of calls.
unfoldable pub final {ℓ} : {S : Type ℓ} → (StoreCall → S → StoreAnswer × S) → List StoreCall → S → S
final call [] s = s
final call (c ∷ cs) s = final call cs (call c s).1

-- The record is there, made for the request with the given hash.
abbrev pub IsFor : String → Option Record → Type 0
IsFor hash o = (r : Record) × (o ≡ some r) × (r.request_hash ≡ hash)

write-IsFor :
    (key other hash : String) (r : Record) (book : Book)
    → ((key == other) ≡ true → r.request_hash ≡ hash)
    → IsFor hash (book other)
    → IsFor hash (write key r book other)
write-IsFor key other hash r book same h = elim (Bool-cases (key == other)) [
  | inl mine ↦ rw mine (r, refl, same mine)
  | inr foreign ↦ rw foreign h
]

spec_call-IsFor :
    (c : StoreCall) (book : Book) (key hash : String)
    → IsFor hash (book key)
    → IsFor hash ((spec_call c book).1 key)
unfolding spec_call updated_record
spec_call-IsFor (claim q now) book key hash h = elim (Option-cases (book q.key)) [
  | inl free ↦ rw free (
      write-IsFor q.key key hash _ book
        (λ mine. absurd (cc (free, h.1, ap book ((eq_iff q.key key).0 mine)))) h)
  | inr (r, taken) ↦ rw taken h
]
spec_call-IsFor (finish r now) book key hash h = elim (Option-cases (book r.key)) [
  | inl missing ↦ rw missing h
  | inr (old, there) ↦ rw there (
      write-IsFor r.key key hash (updated_record r now old) book
        (λ mine. cc (there, h.1, h.2, ap book ((eq_iff r.key key).0 mine))) h)
]
spec_call-IsFor (look other) book key hash h = h

-- What a claim of a taken key is told: the record if it is for the same request, a conflict if not.
abbrev pub Reclaims : String → Claim → Claimed → Type 0
Reclaims hash q (granted created o) = (created ≡ false) × (hash ≡ q.request_hash) × IsFor hash o
Reclaims hash q (conflict o) = (o ≡ some hash) × ((hash == q.request_hash) ≡ false)

claim_answer-Reclaims :
    (q : Claim) (now : ℕ) (hash : String) (o : Option Record)
    → IsFor hash o
    → Reclaims hash q (claim_answer q now o)
claim_answer-Reclaims q now hash none (r, there, same) = cc
claim_answer-Reclaims q now hash (some old) (r, there, same) =
    let mine : old.request_hash ≡ hash = cc in
    elim (Bool-cases (old.request_hash == q.request_hash)) [
      | inl e ↦
          rw e (refl, sym mine ∙ (eq_iff old.request_hash q.request_hash).0 e, (old, refl, mine))
      | inr e ↦ rw e (ap some mine, rw mine at e)
    ]

-- The answer to a claim is as above.
abbrev pub AnswersClaim : String → Claim → StoreAnswer → Type 0
AnswersClaim hash q (claimed a) = Reclaims hash q a
AnswersClaim hash q (found o) = ⊥

module _ {S : Type 0} (get : String → S → Option Record) (call : StoreCall → S → StoreAnswer × S)
    (P : StoreCall → Type 0)
    (step : (c : StoreCall) (s : S) (book : Book)
      → P c
      → Agrees get s book
      → Simulates get (call c s) (spec_call c book)) where
  -- Any store that steps as the specification does keeps a key for its request.
  final-IsFor :
      (cs : List StoreCall) (s : S) (book : Book) (key hash : String)
      → All P cs
      → Agrees get s book
      → IsFor hash (book key)
      → IsFor hash (get key (final call cs s))
  unfolding final
  final-IsFor [] s book key hash p a h = rw (a key) h
  final-IsFor (c ∷ cs) s book key hash p a h =
      final-IsFor cs (call c s).1 (spec_call c book).1 key hash p.1 (step c s book p.0 a).1
        (spec_call-IsFor c book key hash h)

  final-AnswersClaim :
      (cs : List StoreCall) (s : S) (q : Claim) (now : ℕ) (hash : String)
      → All P cs
      → P (claim q now)
      → IsFor hash (get q.key s)
      → AnswersClaim hash q (call (claim q now) (final call cs s)).0
  unfolding spec_call
  final-AnswersClaim cs s q now hash p here h =
      let end = final call cs s in
      rw (step (claim q now) end (λ key. get key end) here (λ key. refl)).0 (
        claim_answer-Reclaims q now hash (get q.key end)
          (final-IsFor cs s (λ key. get key s) q.key hash p (λ key. refl) h))

-- Once a key of the state store's guard has a record for a request, then after any claims, look-ups
-- and results with a response other than null, a claim of that key creates nothing: it gets the
-- record of that request if it has the same request hash, and a conflict with that hash if not.
pub reserve_idempotency_key-Reclaims :
    (cs : List StoreCall) (rows : List IdempotencyRow) (q : Claim) (now : ℕ) (hash : String)
    → All HasResponse cs
    → IsFor hash (get_idempotency_record q.key rows)
    → Reclaims hash q (reserve_idempotency_key q now (final store_call cs rows)).0
unfolding store_call
reserve_idempotency_key-Reclaims cs rows q now hash p h =
    final-AnswersClaim get_idempotency_record store_call HasResponse store_call-Simulates cs rows q
      now hash p tt h

-- Once a key of the in-memory guard has a record for a request, then after any claims, results and
-- look-ups, a claim of that key creates nothing: it gets the record of that request if it has the
-- same request hash, and a conflict with that hash if not.
pub memory_reserve-Reclaims :
    (cs : List StoreCall) (records : Records) (q : Claim) (now : ℕ) (hash : String)
    → IsFor hash (map_get q.key records)
    → Reclaims hash q (memory_reserve q now (final memory_call cs records)).0
unfolding memory_call
memory_reserve-Reclaims cs records q now hash h =
    final-AnswersClaim map_get memory_call (λ c. Unit {0})
      (λ c s book p a. memory_call-Simulates c s book a) cs records q now hash (All-unit cs) tt h
