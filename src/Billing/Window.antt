-- ===== src/Billing/Window.antt =====
-- The replay window through any history of calls.
use mathlib.Core.Path.{subst}
use infopunks_trust_layer_ag.Base.{
  ℕ, ◌+◌, ◌*◌, ◌≤◌, ◌≡◌, refl, sym, ◌∙◌, ◌⊎◌, inl, inr, String, Bool, true, ◌&&◌, some, List, [],
  ◌∷◌, arith, ◌==◌, eq_iff, leb, any, All, any_weaken, any-filter_kept, get_or_else, ◌^^◌, text_of,
  ap,
}
use infopunks_trust_layer_ag.Storage.Tables.{ReplayRow, ReceiptRow, Payments, replay_clash}
use infopunks_trust_layer_ag.Storage.Replay.{
  Refusal, build_payment_fingerprint, delete_expired, replay_row,
}
use infopunks_trust_layer_ag.Storage.Reserve.{
  Request, Readings, reserved, rejected, identity_of, reserve_paid_operation,
}
use infopunks_trust_layer_ag.Billing.History.{Call, reserve, settle, describe, trace, step, run}
use infopunks_trust_layer_ag.Billing.Replays.{
  row_of, expiry_of, check_of-Decides, Decides-any, Decides-clash, reserve-nonces, reserve-refused,
  reserved-row,
}

-- No call of a history reads a clock past an instant.
abbrev pub IsBefore : ℕ → Call → Type 0
IsBefore instant (reserve q c) = c.replay_now ≤ instant
IsBefore instant (settle p mapped_at now) = Unit
IsBefore instant (describe id patch now) = Unit
IsBefore instant (trace id internal now) = Unit

-- The test that a row has not run out at an instant.
lasts : ℕ → (ReplayRow → Bool) → ReplayRow → Bool
lasts instant t r = leb instant r.expires_at && t r

delete_expired-any :
    (instant now : ℕ) (t : ReplayRow → Bool) (rows : List ReplayRow)
    → now ≤ instant
    → any (lasts instant t) rows ≡ true
    → any (lasts instant t) (delete_expired now rows) ≡ true
unfolding delete_expired lasts
delete_expired-any instant now t rows h a = any-filter_kept _ _ rows (λ r e. ground arith) a

step-any :
    (instant : ℕ) (t : ReplayRow → Bool) (call : Call) (s : Payments)
    → IsBefore instant call
    → any (lasts instant t) s.replay_nonces ≡ true
    → any (lasts instant t) (step call s).replay_nonces ≡ true
unfolding step
step-any instant t (reserve q c) s b a = elim (reserve-nonces q c s) [
  | inl unchanged ↦ rw unchanged a
  | inr checked ↦ rw checked (
      Decides-any (identity_of q) (row_of q c) (expiry_of q c) _ (lasts instant t) _ _
        (check_of-Decides q c s) (delete_expired-any instant c.replay_now t s.replay_nonces b a))
]
step-any instant t (settle p mapped_at now) s b a = a
step-any instant t (describe id patch now) s b a = a
step-any instant t (trace id internal now) s b a = a

run-any :
    (instant : ℕ) (t : ReplayRow → Bool) (calls : List Call) (s : Payments)
    → All (IsBefore instant) calls
    → any (lasts instant t) s.replay_nonces ≡ true
    → any (lasts instant t) (run calls s).replay_nonces ≡ true
unfolding run
run-any instant t [] s b a = a
run-any instant t (c ∷ cs) s b a =
    run-any instant t cs (step c s) b.1 (step-any instant t c s b.0 a)

-- The second request shows the first one's nonce, or has its fingerprint.
abbrev pub Repeats : Request → Request → Type 0
Repeats q q' =
    ((n : String) × (q.nonce ≡ some n) × (q'.nonce ≡ some n))
    ⊎ (build_payment_fingerprint (identity_of q') ≡ build_payment_fingerprint (identity_of q))

repeated_clash :
    (q q' : Request) (c c' : Readings) (f f' : String)
    → build_payment_fingerprint (identity_of q) ≡ some f
    → build_payment_fingerprint (identity_of q') ≡ some f'
    → Repeats q q'
    → replay_clash (row_of q' c' f') (row_of q c f) ≡ true
unfolding replay_clash row_of replay_row
repeated_clash q q' c c' f f' e e' (inl (n, has, has')) = rw (
    (eq_iff _ _).1
      (ap (λ o. get_or_else o ("fp_" ^^ f')) has' ∙ sym (ap (λ o. get_or_else o ("fp_" ^^ f)) has)))
repeated_clash q q' c c' f f' e e' (inr same) =
    let same_text : (f' == f) ≡ true = (eq_iff f' f).1 (ap text_of (sym e' ∙ same ∙ e)) in
    ground arith

lasts_test :
    (instant : ℕ) (t : ReplayRow → Bool) (r : ReplayRow) → lasts instant t r ≡ true → t r ≡ true
unfolding lasts
lasts_test instant t r e = ground arith

head_lasts :
    (instant : ℕ) (t : ReplayRow → Bool) (r : ReplayRow) (rows : List ReplayRow)
    → r.expires_at ≡ instant
    → t r ≡ true
    → any (lasts instant t) (r ∷ rows) ≡ true
unfolding lasts
head_lasts instant t r rows e h = ground arith

row_expires :
    (q : Request) (c : Readings) (f : String)
    → (row_of q c f).expires_at ≡ c.expiry_base + q.replay_window_seconds * 1000
unfolding row_of replay_row
row_expires q c f = refl

module _ (q q' : Request) (c c' : Readings) (s : Payments) (calls : List Call) {r : ReceiptRow}
    (h : (reserve_paid_operation q c s).0 ≡ reserved r) (p : Repeats q q')
    (before : All (IsBefore (c.expiry_base + q.replay_window_seconds * 1000)) calls)
    (now : c'.replay_now ≤ c.expiry_base + q.replay_window_seconds * 1000) where
  later : Payments
  later = run calls (step (reserve q c) s)

  -- The first row, still live, clashes with the second.
  still_clashes :
      (f' : String)
      → build_payment_fingerprint (identity_of q') ≡ some f'
      → any (replay_clash (row_of q' c' f')) (delete_expired c'.replay_now later.replay_nonces)
        ≡ true
  unfolding later step
  still_clashes f' e' =
      let (f, e, row_in) = reserved-row q c s h in
      any_weaken (lasts _ _) _ _ (λ x y. lasts_test _ _ x y)
        (delete_expired-any _ c'.replay_now (replay_clash (row_of q' c' f')) _ now (
          run-any expiry clash calls _ before (
            subst (λ rows. any (lasts expiry clash) rows ≡ true) (sym row_in)
              (head_lasts expiry clash (row_of q c f) _ (row_expires q c f)
                (repeated_clash q q' c c' f f' e e' p)))))
    where
      expiry : ℕ
      expiry = c.expiry_base + q.replay_window_seconds * 1000

      clash : ReplayRow → Bool
      clash = replay_clash (row_of q' c' f')

  -- After a reservation has gone through, a reservation that shows the same nonce or has the same
  -- fingerprint is rejected and changes nothing, as long as no replay check in between nor its own
  -- reads a clock past the first one's expiry.
  pub replay_window :
      (why : Refusal) × (reserve_paid_operation q' c' (run calls (step (reserve q c) s))
        ≡ (rejected why, run calls (step (reserve q c) s)))
  unfolding later
  replay_window =
      let (why, e) =
        Decides-clash (identity_of q') (row_of q' c') (expiry_of q' c') _ _ _
          (check_of-Decides q' c' later) still_clashes in
      (why, reserve-refused q' c' later e)
