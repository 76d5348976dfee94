-- ===== src/Identity/Stable.antt =====
-- The subject of an external id, through any history of agents that come by.
use infopunks_trust_layer_ag.Base.{
  ℕ, suc, ◌^^◌, ◌≡◌, refl, inl, inr, String, true, Option, none, some, List, [], ◌∷◌, ◌==◌, eq_iff,
  arith, truthy, text_of, Bool-cases, if◌then◌else◌,
}
use text.Mathlib.TextLemmas.{cons-append}
use infopunks_trust_layer_ag.Identity.Mapper.{
  AgentIdentity, Mapping, get_by_external_id, upsert_mapping, lookup_internal_subject, slice,
  subject_id_of, ensure_internal_subject,
}

lookup-upsert :
    (external : String) (r : Mapping) (rows : List Mapping)
    → lookup_internal_subject external (upsert_mapping r rows) ≡ (
        if r.external_id == external
        then some r.internal_subject_id
        else lookup_internal_subject external rows)
unfolding lookup_internal_subject get_by_external_id upsert_mapping
lookup-upsert external r [] = ground arith
lookup-upsert external r (x ∷ xs) = ground (
  arith,
  lookup-upsert external r xs,
  eq_iff x.external_id r.external_id,
  eq_iff x.external_id external,
  eq_iff r.external_id external,
)

slice-truthy :
    (n : ℕ) (s t : String) → truthy (some s) ≡ true → truthy (some (slice (suc n) (s ^^ t))) ≡ true
unfolding slice
slice-truthy n String.[] t h = cc
slice-truthy n (String.◌∷◌ c s) t h = rw (cons-append c s t) refl

module _ (digest : String → String) (environment : String) where
  -- The table after these identities have come by, each at its time.
  unfoldable pub ensure_all : List (AgentIdentity × ℕ) → List Mapping → List Mapping
  ensure_all [] rows = rows
  ensure_all ((i, now) ∷ rest) rows =
      ensure_all rest (ensure_internal_subject digest environment i now rows).1

  subject_id_of-truthy : (i : AgentIdentity) → truthy (some (subject_id_of digest i)) ≡ true
  unfolding subject_id_of
  subject_id_of-truthy i = slice-truthy 63 "agent_" _ refl

  known_text :
      (o : Option String)
      → truthy o ≡ true
      → (o ≡ some (text_of o)) × (truthy (some (text_of o)) ≡ true)
  known_text none h = cc
  known_text (some s) h = (refl, h)

  ensure_known :
      (i : AgentIdentity) (now : ℕ) (rows : List Mapping)
      → let (subject, rows') = ensure_internal_subject digest environment i now rows in
        (lookup_internal_subject i.external_id rows' ≡ some subject)
        × (truthy (some subject) ≡ true)
  unfolding ensure_internal_subject
  ensure_known i now rows =
      elim (Bool-cases (truthy (lookup_internal_subject i.external_id rows))) [
        | inl there ↦ rw (there, ensure_internal_subject) (known_text _ there)
        | inr absent ↦
            rw (absent, ensure_internal_subject)
              (rw (lookup-upsert i.external_id _ rows, (eq_iff i.external_id i.external_id).1 refl)
                (refl, subject_id_of-truthy i))
      ]

  ensure_keeps :
      (external subject : String) (i : AgentIdentity) (now : ℕ) (rows : List Mapping)
      → lookup_internal_subject external rows ≡ some subject
      → truthy (some subject) ≡ true
      → lookup_internal_subject external (ensure_internal_subject digest environment i now rows).1
        ≡ some subject
  unfolding ensure_internal_subject
  ensure_keeps external subject i now rows h t =
      elim (Bool-cases (truthy (lookup_internal_subject i.external_id rows))) [
        | inl there ↦ rw (there, ensure_internal_subject) h
        | inr absent ↦
            rw (absent, ensure_internal_subject)
              (rw (lookup-upsert external _ rows) (elim (Bool-cases (i.external_id == external)) [
                | inl mine ↦ absurd (cc ((eq_iff i.external_id external).0 mine, absent, h, t))
                | inr other ↦ rw other h
              ]))
      ]

  ensure_all_keeps :
      (external subject : String) (calls : List (AgentIdentity × ℕ)) (rows : List Mapping)
      → lookup_internal_subject external rows ≡ some subject
      → truthy (some subject) ≡ true
      → lookup_internal_subject external (ensure_all calls rows) ≡ some subject
  unfolding ensure_all
  ensure_all_keeps external subject [] rows h t = h
  ensure_all_keeps external subject ((i, now) ∷ rest) rows h t =
      ensure_all_keeps external subject rest _ (ensure_keeps external subject i now rows h t) t

  ensure_again :
      (i : AgentIdentity) (subject : String) (now : ℕ) (rows : List Mapping)
      → lookup_internal_subject i.external_id rows ≡ some subject
      → truthy (some subject) ≡ true
      → ensure_internal_subject digest environment i now rows ≡ (subject, rows)
  unfolding ensure_internal_subject
  ensure_again i subject now rows h t = rw (h, ensure_internal_subject, t) refl

  -- Once an external id has been given a subject, every later agent with that external id is given
  -- the same subject and the mappings stay as they are, whatever agents came in between, with
  -- whatever names and at whatever times.
  pub ensure_internal_subject-ensure_all :
      (i j : AgentIdentity) (now later : ℕ) (calls : List (AgentIdentity × ℕ)) (rows : List Mapping)
      → j.external_id ≡ i.external_id
      → let (subject, rows') = ensure_internal_subject digest environment i now rows in
        ensure_internal_subject digest environment j later (ensure_all calls rows')
        ≡ (subject, ensure_all calls rows')
  ensure_internal_subject-ensure_all i j now later calls rows same =
      let (known, t) = ensure_known i now rows in
      ensure_again j _ later _ (rw same (ensure_all_keeps i.external_id _ calls _ known t)) t
