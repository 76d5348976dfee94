-- ===== src/Entitlement/Token.antt =====
-- `extractToken`, `decodeJwt` and the guards of `validate` that read the token alone.
use Prim.Native.Char.{code}
use infopunks_trust_layer_ag.Base.{
  ℕ, suc, zero, String, Bool, not, ◌&&◌, Option, none, some, List, [], ◌∷◌, ◌==◌, ◌^^◌, eqb,
  is_some, or_else, truthy, text_of, to_lower_case, if◌then◌else◌,
}
use infopunks_trust_layer_ag.Entitlement.Scopes.{split_on, trim, Scopes, Audience, after_prefix}

-- `makeAdapterError(code, message, …, status)`; the details are left out.
pub record Failure : Type 0 where
  pub error_code : String
  pub message : String
  pub http_status : ℕ

abbrev pub unverified : String → ℕ → Failure
unverified message status = record {
  error_code = "PAYMENT_VERIFICATION_FAILED";
  message = message;
  http_status = status;
}

-- The headers: `authorization ?? Authorization` and `x-entitlement-token`.
pub record Headers : Type 0 where
  pub authorization : Option String
  pub entitlement_token : Option String

unfoldable pub drop_text : ℕ → String → String
drop_text zero s = s
drop_text (suc n) String.[] = ""
drop_text (suc n) (String.◌∷◌ c s) = drop_text n s

unfoldable pub bearer_token : Option String → Option String
unfolding drop_text
bearer_token none = none
bearer_token (some header) =
    if is_some (after_prefix "bearer " (to_lower_case header))
    then some (trim (drop_text 7 header))
    else none

abbrev explicit_token : Option String → Option String
explicit_token none = none
explicit_token (some t) = some (trim t)

pub data Extracted : Type 0 where
  conflicting : Failure → Extracted
  token_of : Option String → Extracted

unfoldable pub extract_token : Headers → Extracted
unfolding bearer_token
extract_token h =
    let bearer = bearer_token h.authorization in
    let explicit = explicit_token h.entitlement_token in
    if truthy bearer && (truthy explicit && not (text_of bearer == text_of explicit))
    then conflicting (unverified "Conflicting entitlement token headers." 401)
    else token_of (or_else bearer explicit)

-- The payload, once it is an object. Times are whole seconds.
pub record Claims : Type 0 where
  pub iss : Option String
  pub aud : Audience
  pub exp : Option ℕ
  pub nbf : Option ℕ
  pub iat : Option ℕ
  pub sid : Option String
  pub session_id : Option String
  pub jti : Option String
  pub scope : Option Scopes
  pub scopes : Option Scopes
  pub sub : Option String
  pub payer : Option String

pub data JwtPayload : Type 0 where
  not_object : JwtPayload
  object : Claims → JwtPayload

-- What the platform does for the validator: base64url and JSON on a part of the token, and the two
-- signature checks, of a key, a signing input and the encoded signature.
pub record Crypto : Type 0 where
  pub read_alg : String → Option String
  pub read_payload : String → Option JwtPayload
  pub verify_hs256 : String → String → String → Bool
  pub verify_rs256 : String → String → String → Bool

pub record Decoded : Type 0 where
  pub alg : String
  pub payload : JwtPayload
  pub signature : String
  pub signing_input : String

unfoldable pub decode_parts : Crypto → List String → Option Decoded
decode_parts env (header ∷ body ∷ signature ∷ []) = elim (env.read_alg header) [
  | none ↦ none
  | some alg ↦ elim (env.read_payload body) [
    | none ↦ none
    | some payload ↦ some (record {
      alg = alg;
      payload = payload;
      signature = signature;
      signing_input = header ^^ "." ^^ body;
    })
  ]
]
decode_parts env parts = none

unfoldable pub decode_jwt : Crypto → String → Option Decoded
unfolding decode_parts
decode_jwt env token = decode_parts env (split_on (λ c. eqb (code c) (code ".")) token)
