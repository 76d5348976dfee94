-- ===== src/Guard/Agreement.antt =====
-- The guard of the state store answers as the specification and as the one in memory.
use mathlib.Core.Option
use infopunks_trust_layer_ag.Base.{
  ℕ, ◌≡◌, ◌≢◌, refl, sym, ◌∙◌, ap, inl, inr, String, true, false, none, some, List, [], ◌∷◌, arith,
  ◌==◌, eq_iff, All, any, find_row-any, any-find_row, update_rows, Bool-cases, Option-cases,
  if◌then◌else◌,
}
use infopunks_trust_layer_ag.Base.Json.{Json, null, truth, number, text, array, object}
use infopunks_trust_layer_ag.Storage.Tables.{insert_unique}
use infopunks_trust_layer_ag.Guard.Record.{Record, Claim, Result, granted, conflict}
use infopunks_trust_layer_ag.Guard.Memory.{new_record, updated_record}
use infopunks_trust_layer_ag.Guard.Store.{
  IdempotencyRow, has_key, record_of, idempotency_row, get_idempotency_record,
  reserve_idempotency_key, to_json, finalized_row, finalize_idempotency_key,
}
use infopunks_trust_layer_ag.Guard.Spec.{
  Book, StoreCall, claim, finish, look, found, spec_call, memory_call, store_call, answers, write,
}
use infopunks_trust_layer_ag.Guard.Refines.{
  Agrees, Simulates, answers-simulate, memory_call-answers,
}

-- A result whose response is not null.
abbrev pub HasResponse : StoreCall → Type 0
HasResponse (claim q now) = Unit
HasResponse (finish r now) = r.response ≢ null
HasResponse (look key) = Unit

to_json_lem : (j : Json) → j ≢ null → to_json j ≡ j
unfolding to_json
to_json_lem null h = absurd (h refl)
to_json_lem (truth b) h = refl
to_json_lem (number n) h = refl
to_json_lem (text t) h = refl
to_json_lem (array xs) h = refl
to_json_lem (object fs) h = refl

record_of-finalized_row :
    (r : Result) (now : ℕ) (row : IdempotencyRow)
    → r.response ≢ null
    → record_of (finalized_row r now row) ≡ updated_record r now (record_of row)
unfolding record_of finalized_row updated_record
record_of-finalized_row r now row h = rw (to_json_lem r.response h)

record_of-idempotency_row :
    (q : Claim) (now : ℕ) → record_of (idempotency_row q now) ≡ new_record q now
unfolding record_of idempotency_row new_record
record_of-idempotency_row q now = refl

-- The table seen from a key, after an insert and after an update.
get-insert :
    (q : Claim) (now : ℕ) (key : String) (rows : List IdempotencyRow)
    → get_idempotency_record key (idempotency_row q now ∷ rows)
      ≡ (if q.key == key then some (new_record q now) else get_idempotency_record key rows)
unfolding get_idempotency_record idempotency_row
get-insert q now key rows = elim (Bool-cases (q.key == key)) [
  | inl mine ↦ rw (mine, get_idempotency_record) (ap some (record_of-idempotency_row q now))
  | inr other ↦ rw (other, get_idempotency_record)
]

key-finalized_row :
    (r : Result) (now : ℕ) (row : IdempotencyRow) → (finalized_row r now row).key ≡ row.key
unfolding finalized_row
key-finalized_row r now row = refl

get-update :
    (r : Result) (now : ℕ) (key : String) (rows : List IdempotencyRow)
    → r.response ≢ null
    → get_idempotency_record key (update_rows (has_key r.key) (finalized_row r now) rows) ≡ (
        if r.key == key
        then Option.map (updated_record r now) (get_idempotency_record key rows)
        else get_idempotency_record key rows)
unfolding get_idempotency_record
get-update r now key [] h = ground arith
get-update r now key (x ∷ xs) h = ground (
  arith,
  eq_iff x.key r.key,
  eq_iff r.key key,
  eq_iff x.key key,
  record_of-finalized_row r now x h,
  key-finalized_row r now x,
  get-update r now key xs h,
)

get-free :
    (key : String) (rows : List IdempotencyRow)
    → any (has_key key) rows ≡ false
    → get_idempotency_record key rows ≡ none
unfolding get_idempotency_record
get-free key rows free = rw (find_row-any (has_key key) rows free, get_idempotency_record)

get-taken :
    (key : String) (rows : List IdempotencyRow)
    → any (has_key key) rows ≡ true
    → (r : Record) × (get_idempotency_record key rows ≡ some r)
unfolding get_idempotency_record
get-taken key rows taken =
    let (row, there) = any-find_row (has_key key) rows taken in
    (record_of row, rw (there, get_idempotency_record))

reserve-free :
    (q : Claim) (now : ℕ) (s : List IdempotencyRow)
    → any (has_key q.key) s ≡ false
    → reserve_idempotency_key q now s ≡ (
      granted true (get_idempotency_record q.key (idempotency_row q now ∷ s)),
      idempotency_row q now ∷ s,
    )
unfolding reserve_idempotency_key insert_unique idempotency_row
reserve-free q now s free = rw (free, reserve_idempotency_key)

reserve-taken :
    (q : Claim) (now : ℕ) (s : List IdempotencyRow) (old : Record)
    → any (has_key q.key) s ≡ true
    → get_idempotency_record q.key s ≡ some old
    → reserve_idempotency_key q now s ≡ (
      if old.request_hash == q.request_hash
          then granted false (some old)
          else conflict (some old.request_hash),
      s,
    )
unfolding reserve_idempotency_key insert_unique idempotency_row
reserve-taken q now s old taken there = elim (Bool-cases (old.request_hash == q.request_hash)) [
  | inl same ↦ rw (taken, there, same, reserve_idempotency_key)
  | inr other ↦ rw (taken, there, other, reserve_idempotency_key)
]

store_claims :
    (q : Claim) (now : ℕ) (s : List IdempotencyRow) (book : Book)
    → Agrees get_idempotency_record s book
    → Simulates get_idempotency_record (store_call (claim q now) s) (spec_call (claim q now) book)
unfolding store_call spec_call
store_claims q now s book h = elim (Bool-cases (any (has_key q.key) s)) [
  | inl taken ↦
      let (old, there) = get-taken q.key s taken in
      let held : book q.key ≡ some old = sym (h q.key) ∙ there in
      rw (reserve-taken q now s old taken there, held) (refl, h)
  | inr free ↦
      let free_book : book q.key ≡ none = sym (h q.key) ∙ get-free q.key s free in
      rw (reserve-free q now s free, free_book)
        (
          cc (get-insert q now q.key s, (eq_iff q.key q.key).1 refl),
          λ key.
              get-insert q now key s
              ∙ ap (λ o. if q.key == key then some (new_record q now) else o) (h key),
        )
]

store_finishes :
    (r : Result) (now : ℕ) (s : List IdempotencyRow) (book : Book)
    → r.response ≢ null
    → Agrees get_idempotency_record s book
    → Simulates get_idempotency_record (store_call (finish r now) s) (spec_call (finish r now) book)
unfolding store_call spec_call finalize_idempotency_key
store_finishes r now s book p h = elim (Option-cases (book r.key)) [
  | inl missing ↦ rw missing (
    ap found (after r.key ∙ all_kept missing r.key ∙ missing),
    λ key. after key ∙ all_kept missing key,
  )
  | inr (old, there) ↦ rw there (
    ap found (after r.key ∙ rw (there, (eq_iff r.key r.key).1 refl) refl),
    λ key. after key ∙ written old there key,
  )
]
  where
    after :
        (key : String)
        → get_idempotency_record key (update_rows (has_key r.key) (finalized_row r now) s)
          ≡ (if r.key == key then Option.map (updated_record r now) (book key) else book key)
    after key =
        get-update r now key s p
        ∙ ap (λ o. if r.key == key then Option.map (updated_record r now) o else o) (h key)

    all_kept :
        book r.key ≡ none
        → (key : String)
        → (if r.key == key then Option.map (updated_record r now) (book key) else book key)
          ≡ book key
    all_kept missing key = elim (Bool-cases (r.key == key)) [
      | inl mine ↦
          let here : book key ≡ none = ap book (sym ((eq_iff r.key key).0 mine)) ∙ missing in
          rw (mine, here)
      | inr other ↦ rw other
    ]

    written :
        (old : Record)
        → book r.key ≡ some old
        → (key : String)
        → (if r.key == key then Option.map (updated_record r now) (book key) else book key)
          ≡ write r.key (updated_record r now old) book key
    written old there key = elim (Bool-cases (r.key == key)) [
      | inl mine ↦
          let here : book key ≡ some old = ap book (sym ((eq_iff r.key key).0 mine)) ∙ there in
          rw (mine, here)
      | inr other ↦ rw other
    ]

pub store_call-Simulates :
    (c : StoreCall) (s : List IdempotencyRow) (book : Book)
    → HasResponse c
    → Agrees get_idempotency_record s book
    → Simulates get_idempotency_record (store_call c s) (spec_call c book)
unfolding store_call spec_call
store_call-Simulates (claim q now) s book p h = store_claims q now s book h
store_call-Simulates (finish r now) s book p h = store_finishes r now s book p h
store_call-Simulates (look key) s book p h = (ap found (h key), h)

-- The table of the state store answers any sequence of calls whose results have a response as the
-- specification does.
pub store_call-answers :
    (cs : List StoreCall)
    → All HasResponse cs
    → answers store_call cs [] ≡ answers spec_call cs (λ key. none)
unfolding get_idempotency_record
store_call-answers cs p =
    answers-simulate get_idempotency_record store_call HasResponse store_call-Simulates cs []
      (λ key. none) p (λ key. refl)

-- The guard in the state store and the guard in memory answer every sequence of claims, results and
-- look-ups alike, from empty, as long as each result has a response other than null.
pub store_call-memory_call :
    (cs : List StoreCall)
    → All HasResponse cs
    → answers store_call cs [] ≡ answers memory_call cs []
store_call-memory_call cs p = store_call-answers cs p ∙ sym (memory_call-answers cs)
