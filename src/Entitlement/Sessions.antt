-- ===== src/Entitlement/Sessions.antt =====
-- The table `entitlement_sessions` of state-store.mjs, and `validate`.
use infopunks_trust_layer_ag.Base.{
  ℕ, ◌*◌, ◌/◌, String, Bool, false, not, ◌&&◌, ◌||◌, Option, none, some, List, [], ◌∷◌, ◌==◌, ◌^^◌,
  is_empty, ltb, eqb, or_else, truthy, text_of, same_key, any, find_row, update_rows, if◌then◌else◌,
}
use infopunks_trust_layer_ag.Entitlement.Scopes.{normalize_scope_tokens, normalize_audiences}
use infopunks_trust_layer_ag.Entitlement.Token.{
  Failure, unverified, Claims, not_object, object, Crypto, Decoded, decode_jwt,
}
use infopunks_trust_layer_ag.Entitlement.Guards.{
  Config, first_failure, signature_guards, claim_guards, session_of, scopes_of, Use,
}

pub record Session : Type 0 where
  pub session_id : String
  pub token_jti : Option String
  pub issuer : Option String
  pub audience : Option String
  pub token_subject : Option String
  pub payer : Option String
  pub scopes : List String
  pub issued_at : Option ℕ
  pub expires_at : Option ℕ
  pub created_at : ℕ
  pub last_seen_at : ℕ

abbrev pub is_session : String → Session → Bool
is_session id r = r.session_id == id

abbrev pub has_jti : Option String → Session → Bool
has_jti jti r = same_key r.token_jti jti

unfoldable pub get_entitlement_session_by_id : String → List Session → Option Session
get_entitlement_session_by_id id rows = find_row (is_session id) rows

unfoldable pub get_entitlement_session_by_jti : Option String → List Session → Option Session
get_entitlement_session_by_jti jti rows = find_row (has_jti jti) rows

-- `ON CONFLICT(session_id) DO UPDATE`: all but the id and `created_at`.
unfoldable pub refreshed : Session → Session → Session
refreshed s r = record s { session_id = r.session_id; created_at = r.created_at }

-- A row with another id and the same token breaks `token_jti TEXT UNIQUE`, and the statement fails.
abbrev pub jti_clash : Session → Session → Bool
jti_clash s r = not (r.session_id == s.session_id) && same_key r.token_jti s.token_jti

unfoldable pub upsert_entitlement_session : Session → List Session → Option (List Session)
unfolding refreshed
upsert_entitlement_session s rows =
    if any (jti_clash s) rows
    then none
    else if any (is_session s.session_id) rows
    then some (update_rows (is_session s.session_id) (refreshed s) rows)
    else some (s ∷ rows)

-- The readings of the clock in `validate`, in milliseconds.
pub record Clock : Type 0 where
  pub now : ℕ
  pub session_now : ℕ
  pub created : ℕ
  pub seen : ℕ

abbrev pub run_out : Option Session → ℕ → Bool
run_out none now = false
run_out (some s) now = elim s.expires_at [ none ↦ false | some t ↦ ltb t now ]

-- Whether the field of the session that was found is set and not the given one.
abbrev pub differs_in : (Session → Option String) → Option String → Option Session → Bool
differs_in field value none = false
differs_in field value (some s) = truthy (field s) && not (text_of (field s) == text_of value)

unfoldable pub jti_guards : Clock → Claims → Option Session → List (Bool × Failure)
jti_guards clock c existing =
    (
      run_out existing clock.session_now,
      record {
        error_code = "PAYMENT_SESSION_EXPIRED";
        message = "Entitlement session expired.";
        http_status = 401;
      },
    )
    ∷ (
      elim existing [ none ↦ false | some s ↦ not (s.session_id == text_of (session_of c)) ],
      unverified "Entitlement token jti/session mismatch." 403,
    )
    ∷ (
      differs_in (λ s. s.token_subject) c.sub existing,
      unverified "Entitlement token subject mismatch for existing session." 403,
    )
    ∷ []

unfoldable pub session_guards : Claims → Option Session → List (Bool × Failure)
session_guards c existing =
    (
      differs_in (λ s. s.token_jti) c.jti existing,
      unverified "Entitlement session reused with different token." 403,
    )
    ∷ (
      differs_in (λ s. s.token_subject) c.sub existing,
      unverified "Entitlement session subject mismatch." 403,
    )
    ∷ (
      truthy c.payer && differs_in (λ s. s.payer) c.payer existing,
      unverified "Entitlement session payer mismatch." 403,
    )
    ∷ []

-- `payload.iat ? … : null`, in milliseconds.
abbrev pub issued : Option ℕ → Option ℕ
issued none = none
issued (some iat) = if eqb iat 0 then none else some (iat * 1000)

abbrev pub expires_at_of : Option ℕ → Option ℕ
expires_at_of none = none
expires_at_of (some exp) = some (exp * 1000)

-- `join(" ") || null`
unfoldable pub join : List String → String
join [] = ""
join (s ∷ ss) = elim ss [ [] ↦ s | t ∷ ts ↦ s ^^ " " ^^ join ss ]

abbrev pub joined : List String → Option String
joined ss = if is_empty (join ss) then none else some (join ss)

unfoldable pub normalized : Clock → Claims → Session
normalized clock c = record {
  session_id = text_of (session_of c);
  token_jti = c.jti;
  issuer = c.iss;
  audience = joined (normalize_audiences c.aud);
  token_subject = c.sub;
  payer = or_else c.payer c.sub;
  scopes = normalize_scope_tokens (scopes_of c);
  issued_at = issued c.iat;
  expires_at = expires_at_of c.exp;
  created_at = clock.created;
  last_seen_at = clock.seen;
}

pub data Validated : Type 0 where
  denied : Failure → Validated
  -- No token, and none was needed.
  anonymous : Validated
  entitled : Session → Validated
  -- The statement that stores the session failed.
  not_stored : Validated

unfoldable pub store_session : Session → List Session → Validated × List Session
store_session s rows = elim (upsert_entitlement_session s rows) [
  | none ↦ (not_stored, rows)
  | some rows' ↦ (entitled s, rows')
]

unfoldable pub validate_claims :
    Config → Use → Clock → Claims → List Session → Validated × List Session
unfolding first_failure
validate_claims config use_ clock c rows =
    elim (first_failure (claim_guards config use_ (clock.now / 1000) c)) [
      | some e ↦ (denied e, rows)
      | none ↦
          elim (first_failure (jti_guards clock c (get_entitlement_session_by_jti c.jti rows))) [
            | some e ↦ (denied e, rows)
            | none ↦
                elim (first_failure (
                  session_guards c (get_entitlement_session_by_id (text_of (session_of c)) rows))) [
                    | some e ↦ (denied e, rows)
                    | none ↦ store_session (normalized clock c) rows
                  ]
          ]
    ]

unfoldable pub validate_decoded :
    Crypto → Config → Use → Clock → Decoded → List Session → Validated × List Session
validate_decoded env config use_ clock d rows =
    elim (first_failure (signature_guards env config d)) [
      | some e ↦ (denied e, rows)
      | none ↦ elim d.payload [
        | not_object ↦ (denied (unverified "Entitlement token payload invalid." 401), rows)
        | object c ↦ validate_claims config use_ clock c rows
      ]
    ]

unfoldable pub validate :
    Crypto → Config → Use → Clock → Option String → List Session → Validated × List Session
validate env config use_ clock token rows =
    if truthy token
    then elim (decode_jwt env (text_of token)) [
      | none ↦ (denied (unverified "Malformed entitlement token." 401), rows)
      | some d ↦ validate_decoded env config use_ clock d rows
    ]
    else if use_.required || config.token_required || not config.fallback_allow
    then (
      denied (record {
        error_code = "ENTITLEMENT_REQUIRED";
        message = "Entitlement token required.";
        http_status = 401;
      }),
      rows,
    )
    else (anonymous, rows)
