-- ===== src/Guard/Refines.antt =====
-- Both stores of the guard answer as the specification does.
use infopunks_trust_layer_ag.Base.{
  ◌≡◌, refl, ◌∙◌, ap, inl, inr, String, Option, none, some, List, [], ◌∷◌, arith, ◌==◌, eq_iff, All,
  Bool-cases, Option-cases, if◌then◌else◌,
}
use infopunks_trust_layer_ag.Guard.Record.{Record}
use infopunks_trust_layer_ag.Guard.Memory.{
  Records, map_get, map_set, new_record, updated_record, memory_reserve, memory_finalize,
}
use infopunks_trust_layer_ag.Guard.Spec.{
  Book, StoreCall, claim, finish, look, StoreAnswer, found, spec_call, memory_call, answers, write,
}

-- A store holds what the book says of every key.
abbrev pub Agrees : {S : Type 0} → (String → S → Option Record) → S → Book → Type 0
Agrees get s book = (key : String) → get key s ≡ book key

-- One call: the same answer, and agreement kept.
abbrev pub Simulates :
    {S : Type 0} → (String → S → Option Record) → StoreAnswer × S → StoreAnswer × Book → Type 0
Simulates get r r' = (r.0 ≡ r'.0) × Agrees get r.1 r'.1

pub answers-simulate :
    {S : Type 0} (get : String → S → Option Record) (call : StoreCall → S → StoreAnswer × S)
    (P : StoreCall → Type 0)
    → ((c : StoreCall) (s : S) (book : Book)
        → P c
        → Agrees get s book
        → Simulates get (call c s) (spec_call c book))
    → (cs : List StoreCall) (s : S) (book : Book) → All P cs
    → Agrees get s book
    → answers call cs s ≡ answers spec_call cs book
unfolding answers
answers-simulate get call P step [] s book p h = refl
answers-simulate get call P step (c ∷ cs) s book p h =
    let (same, h') = step c s book p.0 h in
    cc (same, answers-simulate get call P step cs (call c s).1 (spec_call c book).1 p.1 h')

map_get-map_set :
    (key other : String) (r : Record) (records : Records)
    → map_get other (map_set key r records)
      ≡ (if key == other then some r else map_get other records)
unfolding map_get map_set
map_get-map_set key other r [] = refl
map_get-map_set key other r ((k, v) ∷ rest) =
    ground (arith, eq_iff k key, eq_iff k other, eq_iff key other, map_get-map_set key other r rest)

-- What a map says of every key after a write.
map_write :
    (key : String) (r : Record) (s : Records) (book : Book)
    → Agrees map_get s book
    → Agrees map_get (map_set key r s) (write key r book)
map_write key r s book h other =
    map_get-map_set key other r s ∙ ap (λ o. if key == other then some r else o) (h other)

pub All-unit : (cs : List StoreCall) → All (λ c. Unit {0}) cs
All-unit [] = tt
All-unit (c ∷ cs) = (tt, All-unit cs)

pub memory_call-Simulates :
    (c : StoreCall) (s : Records) (book : Book)
    → Agrees map_get s book
    → Simulates map_get (memory_call c s) (spec_call c book)
unfolding memory_call spec_call memory_reserve memory_finalize
memory_call-Simulates (claim q now) s book h = elim (Option-cases (book q.key)) [
  | inl free ↦
      rw (h q.key, free, memory_reserve) (refl, map_write q.key (new_record q now) s book h)
  | inr (r, taken) ↦ elim (Bool-cases (r.request_hash == q.request_hash)) [
    | inl same ↦ rw (h q.key, taken, memory_reserve) (rw same (refl, h))
    | inr other ↦ rw (h q.key, taken, memory_reserve) (rw other (refl, h))
  ]
]
memory_call-Simulates (finish r now) s book h = elim (Option-cases (book r.key)) [
  | inl missing ↦ rw (h r.key, missing, memory_finalize) (refl, h)
  | inr (old, there) ↦
      rw (h r.key, there, memory_finalize)
        (refl, map_write r.key (updated_record r now old) s book h)
]
memory_call-Simulates (look key) s book h = (ap found (h key), h)

-- The in-memory guard answers every sequence of claims, results and look-ups, from empty, as a
-- specification does in which a book gives each key at most one record, made by its first claim and
-- changed only by its results.
pub memory_call-answers :
    (cs : List StoreCall) → answers memory_call cs [] ≡ answers spec_call cs (λ key. none)
unfolding map_get
memory_call-answers cs =
    answers-simulate map_get memory_call (λ c. Unit {0})
      (λ c s book p h. memory_call-Simulates c s book h) cs [] (λ key. none) (All-unit cs)
      (λ key. refl)
