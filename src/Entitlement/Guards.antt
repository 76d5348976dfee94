-- ===== src/Entitlement/Guards.antt =====
-- The guards of `validate` that read the token alone.
use infopunks_trust_layer_ag.Base.{
  ℕ, ◌+◌, String, Bool, true, false, not, ◌&&◌, ◌||◌, Option, none, some, List, [], ◌∷◌, ◌==◌, leb,
  ltb, is_some, get_or_else, or_else, truthy, text_of, if◌then◌else◌,
}
use infopunks_trust_layer_ag.Entitlement.Scopes.{
  Scopes, no_scopes, scope_includes, normalize_audiences, includes,
}
use infopunks_trust_layer_ag.Entitlement.Token.{Failure, unverified, Claims, Crypto, Decoded}

pub record Config : Type 0 where
  pub token_required : Bool
  pub fallback_allow : Bool
  pub clock_skew_seconds : Option ℕ
  pub allowed_algorithms : List String
  pub hmac_secret : Option String
  pub public_key_pem : Option String
  pub issuer : Option String
  pub audience : Option String
  pub max_ttl_seconds : Option ℕ

abbrev pub skew_of : Config → ℕ
skew_of config = get_or_else config.clock_skew_seconds 30

abbrev pub algorithms_of : Config → List String
algorithms_of config = elim config.allowed_algorithms [ [] ↦ "RS256" ∷ [] | a ∷ as' ↦ a ∷ as' ]

unfoldable pub signature_valid : Crypto → Config → Decoded → Bool
signature_valid env config d =
    if d.alg == "HS256"
    then env.verify_hs256 (text_of config.hmac_secret) d.signing_input d.signature
    else if d.alg == "RS256"
    then env.verify_rs256 (text_of config.public_key_pem) d.signing_input d.signature
    else false

-- `if (condition) throw error`, one after the other: the first that holds.
unfoldable pub first_failure : List (Bool × Failure) → Option Failure
first_failure [] = none
first_failure ((failed, error) ∷ rest) = if failed then some error else first_failure rest

unfoldable pub signature_guards : Crypto → Config → Decoded → List (Bool × Failure)
unfolding signature_valid
signature_guards env config d =
    (
      not (d.alg == "HS256" || d.alg == "RS256"),
      unverified "Unsupported entitlement token algorithm." 401,
    )
    ∷ (
      not (includes d.alg (algorithms_of config)),
      unverified "Entitlement token algorithm not allowed." 401,
    )
    ∷ (
      d.alg == "HS256" && not (truthy config.hmac_secret),
      unverified "HS256 entitlement secret not configured." 401,
    )
    ∷ (
      d.alg == "RS256" && not (truthy config.public_key_pem),
      unverified "RS256 entitlement public key not configured." 401,
    )
    ∷ (not (signature_valid env config d), unverified "Entitlement token signature invalid." 401)
    ∷ []

-- `payload.exp <= nowSec - skewSeconds`, and the tests of the other times.
abbrev pub expired : Option ℕ → ℕ → ℕ → Bool
expired none now skew = true
expired (some exp) now skew = leb (exp + skew) now

abbrev pub in_future : Option ℕ → ℕ → ℕ → Bool
in_future none now skew = false
in_future (some t) now skew = ltb (now + skew) t

abbrev pub no_lifetime : Option ℕ → Option ℕ → Bool
no_lifetime (some exp) (some iat) = leb exp iat
no_lifetime exp iat = false

abbrev pub too_long : Option ℕ → Option ℕ → Option ℕ → Bool
too_long (some exp) (some iat) (some max) = ltb (iat + max) exp
too_long exp iat max = false

abbrev pub session_of : Claims → Option String
session_of c = or_else c.sid c.session_id

abbrev pub scopes_of : Claims → Scopes
scopes_of c = get_or_else (or_else c.scope c.scopes) no_scopes

-- Both are there, and they differ.
abbrev pub differ : Option String → Option String → Bool
differ a b = truthy a && (truthy b && not (text_of a == text_of b))

-- The tool, and what the caller and the payment say of themselves.
pub record Use : Type 0 where
  pub tool_name : String
  pub external_agent_id : Option String
  pub payer : Option String
  pub required : Bool

unfoldable pub claim_guards : Config → Use → ℕ → Claims → List (Bool × Failure)
claim_guards config use_ now c =
    (
      truthy config.issuer && not (is_some c.iss && text_of c.iss == text_of config.issuer),
      unverified "Entitlement token issuer invalid." 401,
    )
    ∷ (
      truthy config.audience
          && not (includes (text_of config.audience) (normalize_audiences c.aud)),
      unverified "Entitlement token audience invalid." 401,
    )
    ∷ (
      expired c.exp now (skew_of config),
      record {
        error_code = "PAYMENT_SESSION_EXPIRED";
        message = "Entitlement token expired.";
        http_status = 401;
      },
    )
    ∷ (
      in_future c.nbf now (skew_of config),
      record {
        error_code = "ENTITLEMENT_REQUIRED";
        message = "Entitlement token is not active yet.";
        http_status = 401;
      },
    )
    ∷ (
      in_future c.iat now (skew_of config),
      unverified "Entitlement token issued-at time invalid." 401,
    )
    ∷ (no_lifetime c.exp c.iat, unverified "Entitlement token lifetime invalid." 401)
    ∷ (
      too_long c.exp c.iat config.max_ttl_seconds,
      unverified "Entitlement token lifetime exceeds policy." 401,
    )
    ∷ (
      not (truthy (session_of c)) || not (truthy c.jti),
      unverified "Entitlement token must include session_id and jti." 401,
    )
    ∷ (not (truthy c.sub), unverified "Entitlement token must include subject." 401)
    ∷ (
      not (scope_includes (scopes_of c) use_.tool_name),
      record {
        error_code = "ENTITLEMENT_REQUIRED";
        message = "Token scope does not allow this tool.";
        http_status = 403;
      },
    )
    ∷ (
      differ use_.external_agent_id c.sub,
      unverified "Entitlement token subject does not match caller identity." 403,
    )
    ∷ (
      differ use_.payer c.payer,
      unverified "Entitlement token payer does not match payment payer." 403,
    )
    ∷ []
