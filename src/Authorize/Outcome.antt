-- ===== src/Authorize/Outcome.antt =====
-- What `authorizeAndBill` does on each of its branches.
use infopunks_trust_layer_ag.Base.{
  ◌≡◌, refl, sym, ap, ◌⊎◌, inl, inr, Bool, true, false, not, ◌||◌, none, some, List, [], ◌∷◌, eqb,
  Bool-cases, Option-cases, if◌then◌else◌,
}
use infopunks_trust_layer_ag.Storage.Tables.{ReceiptRow, Payments}
use infopunks_trust_layer_ag.Storage.Replay.{Refusal}
use infopunks_trust_layer_ag.Storage.Reserve.{
  Request, Reservation, reserved, rejected, new_receipt, reserve_paid_operation,
}
use infopunks_trust_layer_ag.Billing.Reservations.{Charges, reserve_paid_operation-Charges}
use infopunks_trust_layer_ag.Billing.History.{Call, reserve, describe, step, run}
use infopunks_trust_layer_ag.Authorize.Requests.{
  PaymentConfig, PaidCall, Outside, AdapterError, Billed, Authorization, authorized, thrown,
}
use infopunks_trust_layer_ag.Authorize.Service.{
  required_units, payment_guard, verification_error, reservation_error, request_of,
  settlement_patch, settle_receipt, bill_verified, authorize_and_bill,
}

-- The arguments of a call, and the tables when the verifier has answered.
module _ (config : PaymentConfig) (call : PaidCall) (env : Outside) (s : Payments) where
  abbrev pub asked : Request
  asked = request_of config call env.verification

  abbrev pub verified : Payments
  verified = env.while_verifying s

  abbrev pub is_free : Bool
  is_free = eqb (required_units call.operation) 0 || not config.required_default

  abbrev pub IsFree : Billed → Payments → Type 0
  IsFree b s' = (is_free ≡ true) × (b.billed_units ≡ 0) × (b.payment_receipt_id ≡ none) × (s' ≡ s)

  pub record IsPaid (b : Billed) (s' : Payments) : Type 0 where
    pub receipt : ReceiptRow
    pub note : List Call
    pub guarded : payment_guard config call.payment ≡ none
    pub accepted : env.verification.ok ≡ true
    pub reservation :
        reserve_paid_operation asked env.readings verified
        ≡ (reserved receipt, step (reserve asked env.readings) verified)
    pub same_id : b.payment_receipt_id ≡ some receipt.receipt_id
    pub same_payer : b.payer ≡ receipt.payer
    pub same_units : b.billed_units ≡ receipt.billed_units
    pub units : receipt.billed_units ≡ required_units call.operation
    pub afterwards : s' ≡ run note (env.while_settling (step (reserve asked env.readings) verified))

  abbrev pub Throws : AdapterError → Payments → Type 0
  Throws e s' =
      ((payment_guard config call.payment ≡ some e) × (s' ≡ s))
      ⊎ ((env.verification.ok ≡ false)
          × (e ≡ verification_error call.operation env.verification.reason)
          × (s' ≡ verified))
      ⊎ ((why : Refusal) × (reserve_paid_operation asked env.readings verified
            ≡ (rejected why, verified))
          × (e ≡ reservation_error why)
          × (s' ≡ verified))

  abbrev pub Branch : Authorization × Payments → Type 0
  Branch (authorized b, s') = IsFree b s' ⊎ IsPaid b s'
  Branch (thrown e, s') = Throws e s'

  reservation_cases :
      ((why : Refusal) × (reserve_paid_operation asked env.readings verified
          ≡ (rejected why, verified)))
      ⊎ ((r : ReceiptRow) × (reserve_paid_operation asked env.readings verified
            ≡ (reserved r, step (reserve asked env.readings) verified))
          × (r.billed_units ≡ required_units call.operation))
  unfolding step new_receipt required_units request_of
  reservation_cases =
      from_outcome (reserve_paid_operation asked env.readings verified) refl
        (reserve_paid_operation-Charges asked env.readings verified)
    where
      from_outcome :
          (o : Reservation × Payments)
          → reserve_paid_operation asked env.readings verified ≡ o
          → Charges asked env.readings verified o
          → ((why : Refusal) × (o ≡ (rejected why, verified)))
            ⊎ ((r : ReceiptRow) × (o
                  ≡ (reserved r, (reserve_paid_operation asked env.readings verified).1))
                × (r.billed_units ≡ required_units call.operation))
      from_outcome (rejected why, t) e c = inl (why, rw c refl)
      from_outcome (reserved r, t) e c = inr (r, rw e refl, ap (λ x. x.billed_units) c.1)

  settled_run :
      (r : ReceiptRow) (t : Payments)
      → (note : List Call) × ((settle_receipt env r t).1 ≡ run note (env.while_settling t))
  unfolding settle_receipt step run
  settled_run r t = elim (Option-cases env.settlement) [
    | inl threw ↦ ([], rw (threw, settle_receipt) refl)
    | inr (answer, got) ↦ (
      describe (some r.receipt_id) (settlement_patch env.verification answer) env.described_at ∷ [],
      rw (got, settle_receipt) refl,
    )
  ]

  bill_verified-Branch :
      payment_guard config call.payment ≡ none
      → env.verification.ok ≡ true
      → Branch (bill_verified config call env verified)
  unfolding bill_verified step
  bill_verified-Branch guarded accepted = elim reservation_cases [
    | inl (why, e) ↦ rw (e, bill_verified) (inr (inr (why, e, refl, ap (λ x. x.1) e)))
    | inr (r, e, units) ↦
        let (note, after) = settled_run r (step (reserve asked env.readings) verified) in
        rw (e, bill_verified)
          (inr record {
            receipt = r;
            note = note;
            guarded = guarded;
            accepted = accepted;
            reservation = e;
            same_id = refl;
            same_payer = refl;
            same_units = sym units;
            units = units;
            afterwards = after;
          })
  ]

  pub authorize_and_bill-Branch : Branch (authorize_and_bill config call env s)
  unfolding authorize_and_bill
  authorize_and_bill-Branch = elim (Bool-cases is_free) [
    | inl free ↦ rw free (inl (free, refl, refl, refl))
    | inr metered ↦ rw metered (elim (Option-cases (payment_guard config call.payment)) [
      | inr (e, stopped) ↦ rw stopped (inl (stopped, refl))
      | inl guarded ↦ rw guarded (answered guarded env.verification.ok refl)
    ])
  ]
    where
      answered :
          payment_guard config call.payment ≡ none
          → (ok : Bool) → env.verification.ok ≡ ok
          → Branch (
              if not ok
              then (thrown (verification_error call.operation env.verification.reason), verified)
              else bill_verified config call env verified)
      answered guarded true e = bill_verified-Branch guarded e
      answered guarded false e = inr (inl (e, refl, refl))
