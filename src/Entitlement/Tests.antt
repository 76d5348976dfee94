-- ===== src/Entitlement/Tests.antt =====
-- Witnesses for entitlement tokens: one token, used twice.
use infopunks_trust_layer_ag.Base.{
  to_lower_case, ℕ, ◌≡◌, refl, true, false, none, some, List, [], ◌∷◌, ◌==◌, if◌then◌else◌,
}
use infopunks_trust_layer_ag.Entitlement.Scopes.{
  spaced, one, words, split_on, is_space, scope_includes, normalize_scope_tokens,
  normalize_audiences, trim, trim_start, trim_end, after_prefix,
}
use infopunks_trust_layer_ag.Entitlement.Token.{
  Claims, object, Crypto, extract_token, token_of, decode_jwt, decode_parts, bearer_token,
  drop_text,
}
use infopunks_trust_layer_ag.Entitlement.Guards.{
  Config, Use, first_failure, signature_guards, signature_valid, claim_guards,
}
use infopunks_trust_layer_ag.Entitlement.Sessions.{
  Session, Clock, get_entitlement_session_by_id, get_entitlement_session_by_jti, validate,
  normalized, entitled, validate_decoded, validate_claims, jti_guards, session_guards,
  store_session, upsert_entitlement_session, refreshed, join,
}
use infopunks_trust_layer_ag.Entitlement.Valid.{Validates, validate-Validates}
use infopunks_trust_layer_ag.Entitlement.Bindings.{IsBound, Binds}
use infopunks_trust_layer_ag.Entitlement.Kept.{
  Keeps, validate-Keeps, Attempt, validate_run, validate_run-Binds,
}

words_test : words "  mcp:a\ttool:b " ≡ "mcp:a" ∷ "tool:b" ∷ []
unfolding words split_on is_space
words_test = refl

abbrev claims : Claims
claims = record {
  iss = some "issuer";
  aud = one "adapter";
  exp = some 900;
  nbf = none;
  iat = some 100;
  sid = none;
  session_id = some "s1";
  jti = some "j1";
  scope = some (spaced "tool:resolve_trust other");
  scopes = none;
  sub = some "agent_1";
  payer = none;
}

-- The only token there is, signed by any secret.
abbrev platform : Crypto
platform = record {
  read_alg = λ header. if header == "h" then some "HS256" else none;
  read_payload = λ body. if body == "b" then some (object claims) else none;
  verify_hs256 = λ secret input signature. signature == "sig";
  verify_rs256 = λ key input signature. false;
}

abbrev config : Config
config = record {
  token_required = true;
  fallback_allow = false;
  clock_skew_seconds = none;
  allowed_algorithms = "HS256" ∷ [];
  hmac_secret = some "secret";
  public_key_pem = none;
  issuer = some "issuer";
  audience = some "adapter";
  max_ttl_seconds = some 3600;
}

abbrev resolving : Use
resolving = record {
  tool_name = "resolve_trust";
  external_agent_id = some "agent_1";
  payer = none;
  required = true;
}

abbrev at_ms : ℕ → Clock
at_ms now = record { now = now; session_now = now; created = now; seen = now }

abbrev stored : Session
stored = record {
  session_id = "s1";
  token_jti = some "j1";
  issuer = some "issuer";
  audience = some "adapter";
  token_subject = some "agent_1";
  payer = some "agent_1";
  scopes = "tool:resolve_trust" ∷ "other" ∷ [];
  issued_at = some 100000;
  expires_at = some 900000;
  created_at = 200000;
  last_seen_at = 200000;
}

abbrev again : List Attempt
again =
    record { purpose = resolving; clock = at_ms 300000; token = some "h.b.sig" }
    ∷ record { purpose = resolving; clock = at_ms 950000; token = some "h.b.sig" }
    ∷ []

accepted_test :
    validate platform config resolving (at_ms 200000) (some "h.b.sig") []
    ≡ (entitled stored, stored ∷ [])
unfolding validate decode_jwt decode_parts validate_decoded first_failure signature_guards
    signature_valid validate_claims claim_guards scope_includes normalize_scope_tokens words
    split_on is_space normalize_audiences trim trim_start trim_end jti_guards session_guards
    get_entitlement_session_by_id get_entitlement_session_by_jti store_session
    upsert_entitlement_session refreshed normalized join
accepted_test = refl

bearer_test :
    extract_token (record { authorization = some "BEARER  t1 "; entitlement_token = none })
    ≡ token_of (some "t1")
unfolding extract_token bearer_token drop_text after_prefix to_lower_case trim trim_start trim_end
    is_space
bearer_test = refl

stored-IsBound : IsBound (stored ∷ [])
stored-IsBound = ((refl, tt), ((refl, refl), tt))

validate-Validates_example :
    Validates platform config resolving
      (at_ms 200000)
      (some "h.b.sig")
      []
      (validate platform config resolving (at_ms 200000) (some "h.b.sig") [])
validate-Validates_example =
    validate-Validates platform config resolving (at_ms 200000) (some "h.b.sig") []

validate-Keeps_example :
    Keeps
      (stored ∷ [])
      (validate platform config resolving (at_ms 300000) (some "h.b.sig") (stored ∷ []))
validate-Keeps_example =
    validate-Keeps platform config resolving (at_ms 300000) (some "h.b.sig") (stored ∷ [])
      stored-IsBound

validate_run-Binds_example :
    (y : Session) × (get_entitlement_session_by_id "s1"
        (validate_run platform config again (stored ∷ []))
      ≡ some y)
    × Binds stored y
unfolding get_entitlement_session_by_id
validate_run-Binds_example =
    validate_run-Binds platform config again (stored ∷ []) "s1" stored stored-IsBound refl
