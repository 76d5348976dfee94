-- ===== src/Authorize/Once.antt =====
-- Errors of `authorizeAndBill`, and the payment that it bills at most once.
use infopunks_trust_layer_ag.Base.{◌≡◌, ap, ◌⊎◌, inl, inr, String, true, Option, some, arith}
use infopunks_trust_layer_ag.Storage.Tables.{ReplayRow, Payments}
use infopunks_trust_layer_ag.Storage.Replay.{identity_missing, replay_detected, spend_exceeded}
use infopunks_trust_layer_ag.Storage.Reserve.{rejected, reserve_paid_operation}
use infopunks_trust_layer_ag.Authorize.Requests.{
  PaymentConfig, PaidCall, Outside, AdapterError, Authorization, authorized, thrown,
}
use infopunks_trust_layer_ag.Authorize.Service.{
  payment_guard, reservation_error, verification_error, authorize_and_bill,
}
use infopunks_trust_layer_ag.Authorize.Outcome.{
  asked, verified, Throws, Branch, authorize_and_bill-Branch,
}

module _ (config : PaymentConfig) (call : PaidCall) (env : Outside) (s : Payments) where
  abbrev pub IsReplay : Type 0
  IsReplay =
      (row : Option ReplayRow) × (reserve_paid_operation (asked config call env s) env.readings
          (verified config call env s)
        ≡ (rejected (replay_detected row), verified config call env s))

  abbrev pub Reported : AdapterError → Payments → Type 0
  Reported e s' =
      ((s' ≡ s) ⊎ (s' ≡ verified config call env s))
      × ((e.status ≡ 402) ⊎ ((e.status ≡ 409) × (e.code ≡ "REPLAY_DETECTED") × IsReplay))

  payment_guard_status :
      (e : AdapterError) → payment_guard config call.payment ≡ some e → e.status ≡ 402
  unfolding payment_guard
  payment_guard_status e h = ground arith

  Throws-Reported :
      (e : AdapterError) (s' : Payments) → Throws config call env s e s' → Reported e s'
  unfolding reservation_error verification_error
  Throws-Reported e s' (inl (h, same)) = (inl same, inl (payment_guard_status e h))
  Throws-Reported e s' (inr (inl (unverified, h, same))) = (inr same, inl (ap (λ x. x.status) h))
  Throws-Reported e s' (inr (inr (replay_detected row, refused, h, same))) =
      (inr same, inr (ap (λ x. x.status) h, ap (λ x. x.code) h, (row, refused)))
  Throws-Reported e s' (inr (inr (identity_missing, refused, h, same))) =
      (inr same, inl (ap (λ x. x.status) h))
  Throws-Reported e s' (inr (inr (spend_exceeded a b c, refused, h, same))) =
      (inr same, inl (ap (λ x. x.status) h))

  -- What is known of a call by its answer.
  abbrev pub Reports : Authorization × Payments → Type 0
  Reports (authorized b, s') = (b.billed_units ≡ 0) ⊎ (env.verification.ok ≡ true)
  Reports (thrown e, s') = Reported e s'

  Branch-Reports : (o : Authorization × Payments) → Branch config call env s o → Reports o
  Branch-Reports (authorized b, s') (inl free) = inl free.1
  Branch-Reports (authorized b, s') (inr paid) = inr paid.accepted
  Branch-Reports (thrown e, s') h = Throws-Reported e s' h

  -- If authorizeAndBill throws, the tables are those from before the call or those from when the
  -- verifier answered, and the status is 402, or it is 409 with the code REPLAY_DETECTED and the
  -- reservation was rejected as a replay. If it answers, it has billed nothing or the verifier has
  -- accepted the payment.
  pub authorize_and_bill-Reports : Reports (authorize_and_bill config call env s)
  authorize_and_bill-Reports =
      Branch-Reports (authorize_and_bill config call env s)
        (authorize_and_bill-Branch config call env s)

abbrev pub IsPaidCall : Authorization → Type 0
IsPaidCall (authorized b) = (id : String) × (b.payment_receipt_id ≡ some id)
IsPaidCall (thrown e) = ⊥
