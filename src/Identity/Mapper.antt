-- ===== src/Identity/Mapper.antt =====
-- `PassportMapper` of passport-mapper.mjs over `FileIdentityMappingStore` of mapping-store.mjs. The
-- digest is an argument.
use Prim.Native.Char.{Char, code}
use infopunks_trust_layer_ag.Base.{
  ℕ, zero, suc, String, Bool, true, false, not, ◌&&◌, ◌||◌, Option, none, some, List, [], ◌∷◌, ◌==◌,
  ◌^^◌, leb, eqb, is_empty, or_else, to_lower_case, truthy, text_of, find_row, if◌then◌else◌,
}

abbrev between : ℕ → ℕ → Char → Bool
between low high c = leb low (code c) && leb (code c) high

-- `[a-z0-9_:-]`
unfoldable pub is_canonical : Char → Bool
is_canonical c =
    between 97 122 c
    || (between 48 57 c || (eqb (code c) 95 || (eqb (code c) 58 || eqb (code c) 45)))

abbrev pub is_underscore : Char → Bool
is_underscore c = eqb (code c) 95

-- `replace(/[^a-z0-9_:-]+/g, "_")`: each run of other characters gives one. The flag says whether
-- the character before was of such a run.
unfoldable pub replace_runs : Bool → String → String
unfolding is_canonical
replace_runs inside String.[] = ""
replace_runs inside (String.◌∷◌ c s) =
    let kept = String.◌∷◌ c (replace_runs false s) in
    let rest = replace_runs true s in
    if is_canonical c then kept else if inside then rest else "_" ^^ rest

unfoldable pub drop_underscores : String → String
drop_underscores String.[] = ""
drop_underscores (String.◌∷◌ c s) =
    let rest = drop_underscores s in if is_underscore c then rest else String.◌∷◌ c s

-- `replace(/_+$/, "")`
unfoldable pub drop_last_underscores : String → String
drop_last_underscores String.[] = ""
drop_last_underscores (String.◌∷◌ c s) =
    let rest = drop_last_underscores s in
    if is_underscore c && is_empty rest then "" else String.◌∷◌ c rest

-- `slice(0, n)`
unfoldable pub slice : ℕ → String → String
slice zero s = ""
slice (suc n) String.[] = ""
slice (suc n) (String.◌∷◌ c s) = String.◌∷◌ c (slice n s)

unfoldable pub text_length : String → ℕ
text_length String.[] = 0
text_length (String.◌∷◌ c s) = suc (text_length s)

unfoldable pub sanitize : String → String
unfolding replace_runs drop_underscores drop_last_underscores slice
sanitize value =
    slice 48 (drop_last_underscores (drop_underscores (replace_runs false (to_lower_case value))))

-- Control characters, which an external id may not have.
unfoldable pub has_control : String → Bool
has_control String.[] = false
has_control (String.◌∷◌ c s) = leb (code c) 31 || (eqb (code c) 127 || has_control s)

unfoldable pub is_safe_external_id : String → Bool
unfolding text_length has_control
is_safe_external_id value =
    not (is_empty value) && (leb (text_length value) 256 && not (has_control value))

-- What an agent says of itself.
pub record Agent : Type 0 where
  pub agent_id : Option String
  pub agent_id_camel : Option String
  pub id : Option String
  pub did : Option String
  pub wallet : Option String
  pub address : Option String
  pub label : Option String
  pub name : Option String

pub record AgentIdentity : Type 0 where
  pub external_id : String
  pub canonical : String
  pub did : String
  pub wallet : Option String
  pub label : Option String

unfoldable pub external_id_of : Agent → Option String
external_id_of a =
    or_else a.agent_id
      (or_else a.agent_id_camel (or_else a.id (or_else a.did (or_else a.wallet a.address))))

unfoldable pub canonical_of : (String → String) → String → String
canonical_of digest external =
    let canonical = sanitize external in
    if is_empty canonical then "anon_" ^^ slice 12 (digest external) else canonical

unfoldable pub normalize_identity : (String → String) → Agent → Option AgentIdentity
normalize_identity digest a = elim (external_id_of a) [
  | none ↦ none
  | some external ↦
      if is_safe_external_id external
      then some record {
        external_id = external;
        canonical = canonical_of digest external;
        did = elim a.did [ none ↦ "did:agentic:" ^^ canonical_of digest external | some did ↦ did ];
        wallet = a.wallet;
        label = or_else a.label a.name;
      }
      else none
]

pub record Mapping : Type 0 where
  pub external_id : String
  pub internal_subject_id : String
  pub external_handle : Option String
  pub did : String
  pub wallet : Option String
  pub environment : String
  pub created_at : ℕ
  pub updated_at : ℕ

abbrev pub is_of : String → Mapping → Bool
is_of external r = r.external_id == external

unfoldable pub get_by_external_id : String → List Mapping → Option Mapping
get_by_external_id external rows = find_row (is_of external) rows

-- Every key of an entry is written anew.
unfoldable pub upsert_mapping : Mapping → List Mapping → List Mapping
upsert_mapping r [] = r ∷ []
upsert_mapping r (x ∷ xs) =
    let rest = upsert_mapping r xs in if is_of r.external_id x then r ∷ xs else x ∷ rest

-- `mapping?.internal_subject_id ?? null`
unfoldable pub lookup_internal_subject : String → List Mapping → Option String
lookup_internal_subject external rows = elim (get_by_external_id external rows) [
  | none ↦ none
  | some r ↦ some r.internal_subject_id
]

unfoldable pub subject_id_of : (String → String) → AgentIdentity → String
subject_id_of digest i = slice 64 ("agent_" ^^ i.canonical ^^ "_" ^^ slice 8 (digest i.external_id))

unfoldable pub ensure_internal_subject :
    (String → String) → String → AgentIdentity → ℕ → List Mapping → String × List Mapping
ensure_internal_subject digest environment i now rows =
    let existing = lookup_internal_subject i.external_id rows in
    let subject = subject_id_of digest i in
    if truthy existing then (text_of existing, rows) else (
      subject,
      upsert_mapping
          record {
            external_id = i.external_id;
            internal_subject_id = subject;
            external_handle = i.label;
            did = i.did;
            wallet = i.wallet;
            environment = environment;
            created_at = now;
            updated_at = now;
          }
          rows,
    )
