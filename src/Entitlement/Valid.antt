-- ===== src/Entitlement/Valid.antt =====
-- `validate` on every branch: what an accepted token shows of itself.
use infopunks_trust_layer_ag.Base.{
  ℕ, ◌+◌, ◌/◌, ◌<◌, ◌≡◌, refl, ◌⊎◌, inl, inr, String, true, false, not, ◌||◌, Option, none, some,
  List, arith, ◌==◌, eq_iff, All, Bool-cases, Option-cases, truthy, text_of,
}
use infopunks_trust_layer_ag.Entitlement.Scopes.{scope_includes, includes}
use infopunks_trust_layer_ag.Entitlement.Token.{
  Claims, JwtPayload, not_object, object, Crypto, Decoded, decode_jwt,
}
use infopunks_trust_layer_ag.Entitlement.Guards.{
  Config, first_failure, signature_guards, signature_valid, claim_guards, expired, session_of,
  scopes_of, skew_of, algorithms_of, differ, Use,
}
use infopunks_trust_layer_ag.Entitlement.Sessions.{
  Session, Clock, Validated, denied, anonymous, entitled, not_stored, normalized, validate_decoded,
  validate,
}
use infopunks_trust_layer_ag.Entitlement.Admits.{
  first_failure_lem, IsAdmitted, Accepts, validate_claims-Accepts,
}

-- The token is signed by an allowed algorithm, with the secret or the key that is configured.
abbrev pub IsSigned : Crypto → Config → Decoded → Type 0
IsSigned env config d =
    (includes d.alg (algorithms_of config) ≡ true)
    × (((d.alg ≡ "HS256")
          × (truthy config.hmac_secret ≡ true)
          × (env.verify_hs256 (text_of config.hmac_secret) d.signing_input d.signature ≡ true))
        ⊎ ((d.alg ≡ "RS256")
            × (truthy config.public_key_pem ≡ true)
            × (env.verify_rs256 (text_of config.public_key_pem) d.signing_input d.signature
                ≡ true)))

signature_guards-IsSigned :
    (env : Crypto) (config : Config) (d : Decoded)
    → All (λ g. g.0 ≡ false) (signature_guards env config d)
    → IsSigned env config d
unfolding signature_guards signature_valid
signature_guards-IsSigned env config d (known, (allowed, (secret, (key, (valid, _))))) =
    elim (Bool-cases (d.alg == "HS256")) [
      | inl hs ↦ (ground arith, inl ((eq_iff d.alg "HS256").0 hs, ground arith, ground arith))
      | inr other ↦ elim (Bool-cases (d.alg == "RS256")) [
        | inl rs ↦ (ground arith, inr ((eq_iff d.alg "RS256").0 rs, ground arith, ground arith))
        | inr unknown ↦ absurd (ground arith)
      ]
    ]

-- The claims are in force at the time, for the tool, and name a session, a token and a subject.
pub record IsInForce (config : Config) (use_ : Use) (now : ℕ) (c : Claims) : Type 0 where
  pub unexpired : (t : ℕ) × (c.exp ≡ some t) × (now < t + skew_of config)
  pub in_scope : scope_includes (scopes_of c) use_.tool_name ≡ true
  pub names_session : truthy (session_of c) ≡ true
  pub names_token : truthy c.jti ≡ true
  pub names_subject : truthy c.sub ≡ true
  pub own_caller : differ use_.external_agent_id c.sub ≡ false
  pub own_payer : differ use_.payer c.payer ≡ false

unexpired_at :
    (exp : Option ℕ) (now skew : ℕ)
    → expired exp now skew ≡ false
    → (t : ℕ) × (exp ≡ some t) × (now < t + skew)
unexpired_at none now skew h = cc
unexpired_at (some t) now skew h = (t, refl, ground arith)

pub claim_guards-IsInForce :
    (config : Config) (use_ : Use) (now : ℕ) (c : Claims)
    → All (λ g. g.0 ≡ false) (claim_guards config use_ now c)
    → IsInForce config use_ now c
unfolding claim_guards
claim_guards-IsInForce config use_ now c
      (_, (_, (exp, (_, (_, (_, (_, (named, (subject, (scope, (caller, (payer, _)))))))))))) =
    record {
      unexpired = unexpired_at c.exp now (skew_of config) exp;
      in_scope = ground arith;
      names_session = ground arith;
      names_token = ground arith;
      names_subject = ground arith;
      own_caller = caller;
      own_payer = payer;
    }

-- What an accepted token is, and what the table is then: the session stored. Every other outcome
-- leaves the table as it was, and without a token only a call that needs none goes through.
abbrev pub Validates :
    Crypto → Config → Use → Clock → Option String → List Session → Validated × List Session → Type 0
Validates env config use_ clock token rows (anonymous, rows') =
    (rows' ≡ rows)
    × (truthy token ≡ false)
    × (use_.required ≡ false)
    × (config.token_required ≡ false)
Validates env config use_ clock token rows (denied e, rows') = rows' ≡ rows
Validates env config use_ clock token rows (not_stored, rows') = rows' ≡ rows
Validates env config use_ clock token rows (entitled s, rows') =
    (d : Decoded) × (c : Claims) × (decode_jwt env (text_of token) ≡ some d)
    × (d.payload ≡ object c)
    × IsSigned env config d
    × IsInForce config use_ (clock.now / 1000) c
    × (s ≡ normalized clock c)

pub JwtPayload-cases : (p : JwtPayload) → (p ≡ not_object) ⊎ ((c : Claims) × (p ≡ object c))
JwtPayload-cases not_object = inl refl
JwtPayload-cases (object c) = inr (c, refl)

from_claims :
    (env : Crypto) (config : Config) (use_ : Use) (clock : Clock) (token : Option String)
    (rows : List Session) (d : Decoded) (c : Claims) (r : Validated × List Session)
    → decode_jwt env (text_of token) ≡ some d
    → d.payload ≡ object c
    → IsSigned env config d
    → Accepts (λ c' s. (c' ≡ c) × IsAdmitted config use_ clock rows c s) rows r
    → Validates env config use_ clock token rows r
from_claims env config use_ clock token rows d c (denied e, rows') h p g a = a
from_claims env config use_ clock token rows d c (anonymous, rows') h p g a = absurd a
from_claims env config use_ clock token rows d c (not_stored, rows') h p g a = a.0
from_claims env config use_ clock token rows d c (entitled s, rows') h p g
      (c', (same, admitted), stored) =
    (
      d,
      c,
      h,
      p,
      g,
      claim_guards-IsInForce config use_ (clock.now / 1000) c admitted.own_claims,
      admitted.described,
    )

-- A token is accepted only if it decodes, is signed by an allowed algorithm with the configured
-- secret or key, has not expired past the skew, names a session, a token and a subject, covers the
-- tool, and does not differ from the caller or the payer; the session is the one its payload
-- describes. Every other outcome leaves the table as it was, and without a token only a call that
-- requires none is let through.
pub validate-Validates :
    (env : Crypto) (config : Config) (use_ : Use) (clock : Clock) (token : Option String)
    (rows : List Session)
    → Validates env config use_ clock token rows (validate env config use_ clock token rows)
unfolding validate validate_decoded
validate-Validates env config use_ clock token rows = elim (Bool-cases (truthy token)) [
  | inl given ↦ elim (Option-cases (decode_jwt env (text_of token))) [
    | inl malformed ↦ rw (given, malformed, validate) refl
    | inr (d, decoded) ↦ elim (Option-cases (first_failure (signature_guards env config d))) [
      | inr (e, bad) ↦ rw (given, decoded, bad, validate, validate_decoded) refl
      | inl signed ↦ elim (JwtPayload-cases d.payload) [
        | inl wrong ↦ rw (given, decoded, signed, wrong, validate, validate_decoded) refl
        | inr (c, read) ↦
            rw (given, decoded, signed, read, validate, validate_decoded)
              (from_claims env config use_ clock token rows d c _ decoded read
                (signature_guards-IsSigned env config d (first_failure_lem _ signed))
                (validate_claims-Accepts config use_ clock c rows))
      ]
    ]
  ]
  | inr missing ↦
      elim (Bool-cases (use_.required || config.token_required || not config.fallback_allow)) [
        | inl needed ↦ rw (missing, validate) (rw needed refl)
        | inr free ↦ rw (missing, validate) (rw free (refl, missing, ground arith, ground arith))
      ]
]
