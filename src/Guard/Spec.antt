-- ===== src/Guard/Spec.antt =====
-- What the guard promises: one record to a key, made by the first claim, kept for its request, and
-- completed by a result.
use infopunks_trust_layer_ag.Base.{
  ℕ, String, true, false, Option, none, some, List, [], ◌∷◌, ◌==◌, if◌then◌else◌,
}
use infopunks_trust_layer_ag.Guard.Record.{Record, Claim, Result, Claimed, granted, conflict}
use infopunks_trust_layer_ag.Guard.Memory.{
  Records, new_record, updated_record, memory_reserve, memory_finalize, map_get,
}
use infopunks_trust_layer_ag.Guard.Store.{
  IdempotencyRow, reserve_idempotency_key, finalize_idempotency_key, get_idempotency_record,
}

-- The record of each key.
abbrev pub Book : Type 0
Book = String → Option Record

abbrev pub write : String → Record → Book → Book
write key r book other = if key == other then some r else book other

abbrev pub claim_answer : Claim → ℕ → Option Record → Claimed
claim_answer q now none = granted true (some (new_record q now))
claim_answer q now (some r) =
    if r.request_hash == q.request_hash
    then granted false (some r)
    else conflict (some r.request_hash)

abbrev pub claim_book : Claim → ℕ → Option Record → Book → Book
claim_book q now none book = write q.key (new_record q now) book
claim_book q now (some r) book = book

abbrev pub finish_answer : Result → ℕ → Option Record → Option Record
finish_answer r now none = none
finish_answer r now (some old) = some (updated_record r now old)

abbrev pub finish_book : Result → ℕ → Option Record → Book → Book
finish_book r now none book = book
finish_book r now (some old) book = write r.key (updated_record r now old) book

pub data StoreCall : Type 0 where
  claim : Claim → ℕ → StoreCall
  finish : Result → ℕ → StoreCall
  look : String → StoreCall

pub data StoreAnswer : Type 0 where
  claimed : Claimed → StoreAnswer
  found : Option Record → StoreAnswer

unfoldable pub spec_call : StoreCall → Book → StoreAnswer × Book
spec_call (claim q now) book =
    (claimed (claim_answer q now (book q.key)), claim_book q now (book q.key) book)
spec_call (finish r now) book =
    (found (finish_answer r now (book r.key)), finish_book r now (book r.key) book)
spec_call (look key) book = (found (book key), book)

unfoldable pub memory_call : StoreCall → Records → StoreAnswer × Records
memory_call (claim q now) records =
    let (a, records') = memory_reserve q now records in (claimed a, records')
memory_call (finish r now) records =
    let (a, records') = memory_finalize r now records in (found a, records')
memory_call (look key) records = (found (map_get key records), records)

unfoldable pub store_call : StoreCall → List IdempotencyRow → StoreAnswer × List IdempotencyRow
store_call (claim q now) rows =
    let (a, rows') = reserve_idempotency_key q now rows in (claimed a, rows')
store_call (finish r now) rows =
    let (a, rows') = finalize_idempotency_key r now rows in (found a, rows')
store_call (look key) rows = (found (get_idempotency_record key rows), rows)

-- The answers of a store to a sequence of calls.
unfoldable pub answers {ℓ} :
    {S : Type ℓ} → (StoreCall → S → StoreAnswer × S) → List StoreCall → S → List StoreAnswer
answers call [] s = []
answers call (c ∷ cs) s = let (a, s') = call c s in a ∷ answers call cs s'
