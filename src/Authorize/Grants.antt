-- ===== src/Authorize/Grants.antt =====
-- When `authorizeAndBill` goes through, whatever becomes of the settlement.
use infopunks_trust_layer_ag.Base.{
  ℕ, ◌+◌, ◌≤◌, ◌≡◌, refl, sym, ap, ◌∙◌, inl, inr, String, true, false, none, some, arith, any,
}
use infopunks_trust_layer_ag.Storage.Tables.{
  Payments, replay_clash, receipt_clash, day_prefix, insert_replay_nonce, insert_receipt,
}
use infopunks_trust_layer_ag.Storage.Replay.{
  build_payment_fingerprint, delete_expired, assert_not_replay, fresh,
}
use infopunks_trust_layer_ag.Storage.Receipts.{spend_by_day}
use infopunks_trust_layer_ag.Storage.Reserve.{
  Request, Readings, identity_of, reserved, new_receipt, reserve_paid_operation,
}
use infopunks_trust_layer_ag.Billing.Replays.{check_of, row_of, expiry_of}
use infopunks_trust_layer_ag.Authorize.Requests.{
  PaymentConfig, PaidCall, Outside, Authorization, authorized, thrown,
}
use infopunks_trust_layer_ag.Authorize.Service.{payment_guard, required_units, authorize_and_bill}
use infopunks_trust_layer_ag.Authorize.Outcome.{
  asked, verified, is_free, Branch, authorize_and_bill-Branch,
}

-- A request that can be granted: it has a fingerprint, clashes with no row that has not run out and
-- with no receipt, and stays within the limit of the day.
pub record IsFresh (q : Request) (c : Readings) (s : Payments) : Type 0 where
  pub fingerprint : String
  pub named : build_payment_fingerprint (identity_of q) ≡ some fingerprint
  pub unseen :
      any (replay_clash (row_of q c fingerprint)) (delete_expired c.replay_now s.replay_nonces)
      ≡ false
  pub within :
      spend_by_day q.payer (day_prefix c.now) s.payment_receipts + q.billed_units
      ≤ q.spend_limit_units
  pub unbilled : any (receipt_clash (new_receipt q c.receipt_id c.now)) s.payment_receipts ≡ false

check_of-fresh :
    (q : Request) (c : Readings) (s : Payments)
    → IsFresh q c s
    → (check_of q c s).0 ≡ fresh (expiry_of q c)
unfolding check_of assert_not_replay insert_replay_nonce row_of expiry_of
check_of-fresh q c s h = rw (h.named, assert_not_replay, h.unseen) refl

pub reserve_paid_operation-IsFresh :
    (q : Request) (c : Readings) (s : Payments)
    → IsFresh q c s
    → (reserve_paid_operation q c s).0 ≡ reserved (new_receipt q c.receipt_id c.now)
unfolding reserve_paid_operation insert_receipt check_of
reserve_paid_operation-IsFresh q c s h =
    ground (arith, check_of-fresh q c s h, h.within, h.unbilled)

-- The units and the id of a bill.
abbrev pub Bills : ℕ → String → Authorization → Type 0
Bills units id (thrown e) = ⊥
Bills units id (authorized b) = (b.billed_units ≡ units) × (b.payment_receipt_id ≡ some id)

module _ (config : PaymentConfig) (call : PaidCall) (env : Outside) (s : Payments) where
  bill :
      (o : Authorization × Payments)
      → Branch config call env s o
      → is_free config call env s ≡ false
      → payment_guard config call.payment ≡ none
      → env.verification.ok ≡ true
      → (reserve_paid_operation
          (asked config call env s)
          env.readings
          (verified config call env s)).0
        ≡ reserved (new_receipt (asked config call env s) env.readings.receipt_id env.readings.now)
      → Bills (required_units call.operation) env.readings.receipt_id o.0
  unfolding new_receipt
  bill (authorized b, t) (inl free) m g a r = absurd (cc (free.0, m))
  bill (authorized b, t) (inr paid) m g a r =
      let same : reserved paid.receipt
          ≡ reserved
              (new_receipt (asked config call env s) env.readings.receipt_id env.readings.now) =
        sym (ap (λ x. x.0) paid.reservation) ∙ r in
      (paid.same_units ∙ paid.units, paid.same_id ∙ cc same)
  bill (thrown e, t) (inl (stopped, same)) m g a r = absurd (cc (stopped, g))
  bill (thrown e, t) (inr (inl refused)) m g a r = absurd (cc (refused.0, a))
  bill (thrown e, t) (inr (inr (why, refused, _, _))) m g a r =
      absurd (cc (ap (λ x. x.0) refused, r))

  -- A metered call whose payment passes the guards and is verified, has a fingerprint, clashes with
  -- no live nonce and no receipt and stays within the limit of the day is billed its units under
  -- its receipt id, whatever the settlement answers and even if it throws.
  pub authorize_and_bill-Bills :
      is_free config call env s ≡ false
      → payment_guard config call.payment ≡ none
      → env.verification.ok ≡ true
      → IsFresh (asked config call env s) env.readings (verified config call env s)
      → Bills
          (required_units call.operation)
          env.readings.receipt_id
          (authorize_and_bill config call env s).0
  authorize_and_bill-Bills m g a h =
      bill (authorize_and_bill config call env s) (authorize_and_bill-Branch config call env s) m g
        a
        (reserve_paid_operation-IsFresh (asked config call env s) env.readings
          (verified config call env s) h)
