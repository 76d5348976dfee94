-- ===== src/Entitlement/Admits.antt =====
-- What a token must be for `validate` to accept it.
use infopunks_trust_layer_ag.Base.{
  ◌/◌, ◌≡◌, refl, inl, inr, Bool, false, none, some, List, [], ◌∷◌, arith, All, Bool-cases,
  Option-cases, text_of,
}
use infopunks_trust_layer_ag.Entitlement.Token.{Failure, Claims}
use infopunks_trust_layer_ag.Entitlement.Guards.{
  Config, first_failure, claim_guards, session_of, Use,
}
use infopunks_trust_layer_ag.Entitlement.Sessions.{
  Session, Clock, Validated, denied, anonymous, entitled, not_stored, jti_guards, session_guards,
  normalized, get_entitlement_session_by_id, get_entitlement_session_by_jti,
  upsert_entitlement_session, store_session, validate_claims,
}

pub first_failure_lem :
    (gs : List (Bool × Failure)) → first_failure gs ≡ none → All (λ g. g.0 ≡ false) gs
unfolding first_failure
first_failure_lem [] h = tt
first_failure_lem ((failed, e) ∷ gs) h = elim (Bool-cases failed) [
  | inl failing ↦ absurd (cc (failing, h))
  | inr passed ↦ (passed, first_failure_lem gs (ground arith))
]

-- The payload passed every guard, and the session is the one that it describes.
pub record IsAdmitted (config : Config) (use_ : Use) (clock : Clock) (rows : List Session)
    (c : Claims) (s : Session) : Type 0 where
  pub own_claims : All (λ g. g.0 ≡ false) (claim_guards config use_ (clock.now / 1000) c)
  pub own_jti :
      All (λ g. g.0 ≡ false) (jti_guards clock c (get_entitlement_session_by_jti c.jti rows))
  pub own_session :
      All
        (λ g. g.0 ≡ false)
        (session_guards c (get_entitlement_session_by_id (text_of (session_of c)) rows))
  pub described : s ≡ normalized clock c

-- Anything but an accepted token leaves the table as it was.
abbrev pub Accepts : (Claims → Session → Type 0) → List Session → Validated × List Session → Type 0
Accepts P rows (denied e, rows') = rows' ≡ rows
Accepts P rows (anonymous, rows') = ⊥
Accepts P rows (not_stored, rows') =
    (rows' ≡ rows)
    × ((c : Claims) × (s : Session) × P c s × (upsert_entitlement_session s rows ≡ none))
Accepts P rows (entitled s, rows') =
    (c : Claims) × P c s × (upsert_entitlement_session s rows ≡ some rows')

store_session-Accepts :
    (P : Claims → Session → Type 0) (c : Claims) (s : Session) (rows : List Session)
    → P c s
    → Accepts P rows (store_session s rows)
unfolding store_session
store_session-Accepts P c s rows p = elim (Option-cases (upsert_entitlement_session s rows)) [
  | inl failed ↦ rw (failed, store_session) (refl, (c, s, p, failed))
  | inr (rows', stored) ↦ rw (stored, store_session) (c, p, stored)
]

pub validate_claims-Accepts :
    (config : Config) (use_ : Use) (clock : Clock) (c : Claims) (rows : List Session)
    → Accepts
        (λ c' s. (c' ≡ c) × IsAdmitted config use_ clock rows c s)
        rows
        (validate_claims config use_ clock c rows)
unfolding validate_claims
validate_claims-Accepts config use_ clock c rows =
    elim (Option-cases (first_failure (claim_guards config use_ (clock.now / 1000) c))) [
      | inr (e, bad) ↦ rw (bad, validate_claims) refl
      | inl own ↦
          elim (Option-cases
            (first_failure (jti_guards clock c (get_entitlement_session_by_jti c.jti rows)))) [
              | inr (e, bad) ↦ rw (own, bad, validate_claims) refl
              | inl jti ↦
                  elim (Option-cases (
                    first_failure (
                      session_guards c
                        (get_entitlement_session_by_id (text_of (session_of c)) rows)))) [
                          | inr (e, bad) ↦ rw (own, jti, bad, validate_claims) refl
                          | inl session ↦
                              rw (own, jti, session, validate_claims)
                                (store_session-Accepts _ c (normalized clock c) rows (
                                  refl,
                                  record {
                                    own_claims = first_failure_lem _ own;
                                    own_jti = first_failure_lem _ jti;
                                    own_session = first_failure_lem _ session;
                                    described = refl;
                                  },
                                ))
                        ]
            ]
    ]
