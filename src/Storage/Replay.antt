-- ===== src/Storage/Replay.antt =====
-- `buildPaymentFingerprint` and `assertNotReplay` of state-store.mjs.
use infopunks_trust_layer_ag.Base.{
  ℕ, ◌+◌, ◌*◌, String, Bool, not, ◌&&◌, Option, none, some, List, ◌==◌, ltb, truthy, text_of,
  get_or_else, or_else, same_key, find_row, filter, ◌^^◌, if◌then◌else◌,
}
use infopunks_trust_layer_ag.Storage.Tables.{ReplayRow, insert_replay_nonce}

pub record Identity : Type 0 where
  pub nonce : Option String
  pub proof_id : Option String
  pub session_id : Option String
  pub verifier_reference : Option String
  pub payer : Option String

unfoldable pub build_payment_fingerprint : Identity → Option String
build_payment_fingerprint i =
    if truthy i.verifier_reference
    then some ("verifier:" ^^ text_of i.verifier_reference)
    else if truthy i.proof_id
    then some ("proof:" ^^ text_of i.proof_id)
    else if truthy i.session_id && truthy i.nonce
    then some ("session_nonce:" ^^ text_of i.session_id ^^ ":" ^^ text_of i.nonce)
    else if truthy i.nonce
    then some ("nonce:" ^^ text_of i.nonce)
    else if truthy i.session_id && truthy i.payer
    then some ("session_payer:" ^^ text_of i.session_id ^^ ":" ^^ text_of i.payer)
    else none

pub data Refusal : Type 0 where
  -- `PAYMENT_VERIFICATION_FAILED`: nothing identifies the payment.
  identity_missing : Refusal
  -- `PAYMENT_REPLAY_DETECTED`, with the row found.
  replay_detected : Option ReplayRow → Refusal
  -- `ENTITLEMENT_REQUIRED`, with the units spent, projected and allowed.
  spend_exceeded : ℕ → ℕ → ℕ → Refusal

-- `DELETE FROM replay_nonces WHERE expires_at < now`
unfoldable pub delete_expired : ℕ → List ReplayRow → List ReplayRow
delete_expired now rows = filter (λ r. not (ltb r.expires_at now)) rows

-- The row that an attempt clashed with: each key that is given is looked up in turn.
unfoldable pub existing_replay : Identity → Option String → List ReplayRow → Option ReplayRow
existing_replay i fingerprint rows =
    or_else (find (truthy i.nonce) (λ r. r.nonce == text_of i.nonce)) (
      or_else (find (truthy i.proof_id) (λ r. same_key r.proof_id i.proof_id)) (
        or_else
          (find (truthy i.verifier_reference)
            (λ r. same_key r.verifier_reference i.verifier_reference))
          (find (truthy fingerprint) (λ r. same_key r.payment_fingerprint fingerprint))))
  where
    find : Bool → (ReplayRow → Bool) → Option ReplayRow
    find given test = if given then find_row test rows else none

unfoldable pub replay_row : Identity → Option String → String → ℕ → ℕ → ReplayRow
replay_row i tool_name fingerprint now expiry = record {
  nonce = get_or_else i.nonce ("fp_" ^^ fingerprint);
  proof_id = i.proof_id;
  session_id = i.session_id;
  payer = i.payer;
  tool_name = tool_name;
  first_seen_at = now;
  expires_at = expiry;
  verifier_reference = i.verifier_reference;
  payment_fingerprint = some fingerprint;
}

pub data Check : Type 0 where
  fresh : ℕ → Check
  refused : Refusal → Check

-- `now` is the reading of the clock that opens the method, `later` the one that sets the expiry.
unfoldable pub assert_not_replay :
    Identity → Option String → ℕ → ℕ → ℕ → List ReplayRow → Check × List ReplayRow
unfolding delete_expired
assert_not_replay i tool_name window now later rows =
    let live = delete_expired now rows in
    elim (build_payment_fingerprint i) [
      | none ↦ (refused identity_missing, live)
      | some fingerprint ↦
          let expiry = later + window * 1000 in
          elim (insert_replay_nonce (replay_row i tool_name fingerprint now expiry) live) [
            | none ↦ (refused (replay_detected (existing_replay i (some fingerprint) live)), live)
            | some rows' ↦ (fresh expiry, rows')
          ]
    ]
