-- ===== src/Authorize/Payment.antt =====
-- The payment of a call: `normalizeNetwork` and `deriveNonce` of entitlements.mjs.
use infopunks_trust_layer_ag.Base.{
  String, Option, none, some, ◌==◌, ◌^^◌, or_else, get_or_else, is_empty, to_lower_case, text_of,
  if◌then◌else◌,
}
use infopunks_trust_layer_ag.Entitlement.Scopes.{trim}

-- The fields of `payment` that are read, each present if it is a text. A call without a payment has
-- none of them. The last ones are those of `payment.paymentPayload` and
-- `payment.paymentRequirements`.
pub record Payment : Type 0 where
  pub payer : Option String
  pub nonce : Option String
  pub proof_id : Option String
  pub verifier_reference : Option String
  pub session_id : Option String
  pub asset : Option String
  pub network : Option String
  pub authorization_nonce : Option String
  pub payload_proof_id : Option String
  pub requirements_asset : Option String
  pub requirements_network : Option String

-- `network` without white space and in lower case, the two short names spelled out.
unfoldable pub normalize_network : Option String → Option String
normalize_network value =
    let normalized = to_lower_case (trim (text_of value)) in
    if is_empty normalized
    then none
    else if normalized == "base"
    then some "eip155:8453"
    else if normalized == "base-sepolia"
    then some "eip155:84532"
    else some normalized

-- `typeof value === "string" && value.trim() ? value.trim() : null`
unfoldable pub given : Option String → Option String
given none = none
given (some s) = let trimmed = trim s in if is_empty trimmed then none else some trimmed

unfoldable pub proof_of : Payment → Option String
unfolding given
proof_of p = or_else (given p.proof_id) (given p.payload_proof_id)

-- `payer ?? "anonymous"` is the payer, which is never null here.
unfoldable pub derive_nonce : Payment → String → String → String
unfolding given proof_of
derive_nonce p payer operation =
    get_or_else
      (or_else (given p.nonce) (
        or_else (given p.authorization_nonce) (
          or_else (prefixed "derived:proof:" (proof_of p)) (
            or_else (prefixed "derived:ref:" (given p.verifier_reference))
              (by_session (given p.session_id))))))
      ("derived:" ^^ payer ^^ ":" ^^ operation)
  where
    prefixed : String → Option String → Option String
    prefixed prefix none = none
    prefixed prefix (some s) = some (prefix ^^ s)

    by_session : Option String → Option String
    by_session none = none
    by_session (some session) =
        if is_empty payer
        then none
        else some ("derived:session:" ^^ session ^^ ":" ^^ payer ^^ ":" ^^ operation)

abbrev pub payment_asset : Payment → Option String
payment_asset p = or_else p.asset p.requirements_asset

abbrev pub payment_network : Payment → Option String
payment_network p = normalize_network (or_else p.network p.requirements_network)
