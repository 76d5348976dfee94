-- ===== src/Resilience/Cache.antt =====
-- Answers about the trust of a subject, and the table `trust_cache`.
use infopunks_trust_layer_ag.Base.{
  ℕ, ◌≡◌, sym, inl, inr, String, Bool, true, false, Option, none, some, List, [], ◌∷◌, arith, ◌==◌,
  eq_iff, is_empty, any, find_row, update_rows, Bool-cases, if◌then◌else◌,
}
use infopunks_trust_layer_ag.Base.Json.{Json}

-- An answer: the fields that the adapter reads or writes, and the others. Confidences are in
-- ten-thousandths, the four digits that the adapter keeps.
pub record TrustResponse : Type 0 where
  pub subject_id : Option String
  pub score : Option ℕ
  pub trust_score : Option ℕ
  pub trust_tier : Option String
  pub band : Option String
  pub decision : Option String
  pub reason_codes : Option (List String)
  pub provisional : Option Bool
  pub mode : Option String
  pub confidence : Option ℕ
  pub reason : Option String
  pub other_fields : Json

pub record CacheRow : Type 0 where
  pub cached_subject : String
  pub response : TrustResponse
  pub updated_at : ℕ

abbrev pub is_about : String → CacheRow → Bool
is_about subject r = r.cached_subject == subject

abbrev lookup : String → List CacheRow → Option TrustResponse
lookup subject rows = elim (find_row (is_about subject) rows) [
  | none ↦ none
  | some r ↦ some r.response
]

unfoldable pub get_cached_trust : String → List CacheRow → Option TrustResponse
get_cached_trust subject rows = if is_empty subject then none else lookup subject rows

abbrev overwrite : CacheRow → CacheRow → CacheRow
overwrite new old = record old { response = new.response; updated_at = new.updated_at }

unfoldable pub set_cached_trust : String → TrustResponse → ℕ → List CacheRow → List CacheRow
set_cached_trust subject response now rows =
    let row : CacheRow = record {
      cached_subject = subject;
      response = response;
      updated_at = now;
    } in
    if is_empty subject
    then rows
    else if any (is_about subject) rows
    then update_rows (is_about subject) (overwrite row) rows
    else row ∷ rows

lookup-update_rows :
    (subject other : String) (row : CacheRow) (rows : List CacheRow)
    → lookup other (update_rows (is_about subject) (overwrite row) rows) ≡ (
        if subject == other
        then if any (is_about subject) rows then some row.response else none
        else lookup other rows)
lookup-update_rows subject other row [] = ground arith
lookup-update_rows subject other row (x ∷ xs) = elim (Bool-cases (subject == other)) [
  | inl own ↦ grind (
    arith,
    eq_iff x.cached_subject subject,
    eq_iff subject other,
    eq_iff x.cached_subject other,
    lookup-update_rows subject other row xs,
  )
  | inr foreign ↦ grind (
    arith,
    eq_iff x.cached_subject subject,
    eq_iff subject other,
    eq_iff x.cached_subject other,
    lookup-update_rows subject other row xs,
  )
]

-- What the cache says of a subject after a write.
pub get_cached_trust-set_cached_trust :
    (subject other : String) (response : TrustResponse) (now : ℕ) (rows : List CacheRow)
    → is_empty subject ≡ false
    → get_cached_trust other (set_cached_trust subject response now rows)
      ≡ (if subject == other then some response else get_cached_trust other rows)
unfolding get_cached_trust set_cached_trust
get_cached_trust-set_cached_trust subject other response now rows named =
    elim (Bool-cases (any (is_about subject) rows)) [
      | inl old ↦
          rw (named, set_cached_trust)
            (rw (old, set_cached_trust)
              (ground (arith, given, lookup-update_rows subject other row rows, old)))
      | inr new ↦ rw (named, set_cached_trust) (rw (new, set_cached_trust) (ground (arith, given)))
    ]
  where
    row : CacheRow
    row = record { cached_subject = subject; response = response; updated_at = now }

    given : (subject == other) ≡ true → is_empty other ≡ false
    given same = rw (sym ((eq_iff subject other).0 same)) named
