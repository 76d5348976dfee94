-- ===== src/Billing/Replays.antt =====
-- Replays: what `assertNotReplay` admits, and what it turns away through any history of calls.
use infopunks_trust_layer_ag.Base.{
  ℕ, ◌+◌, ◌*◌, ◌≡◌, refl, ap, ◌∙◌, ◌⊎◌, inl, inr, String, Bool, true, false, Option, none, some,
  List, ◌∷◌, arith, any, Bool-cases, Option-cases,
}
use infopunks_trust_layer_ag.Storage.Tables.{
  ReplayRow, ReceiptRow, Payments, replay_clash, insert_replay_nonce,
}
use infopunks_trust_layer_ag.Storage.Replay.{
  Identity, Refusal, identity_missing, replay_detected, build_payment_fingerprint, delete_expired,
  existing_replay, replay_row, Check, fresh, refused, assert_not_replay,
}
use infopunks_trust_layer_ag.Storage.Reserve.{
  Request, Readings, reserved, rejected, identity_of, reserve_paid_operation,
}

-- What the check answers, and the table that it leaves: the row goes in exactly if the payment has
-- a fingerprint and clashes with no row that has not run out.
abbrev pub Decides :
    Identity
    → (String → ReplayRow)
    → ℕ
    → List ReplayRow
    → Option String
    → Check × List ReplayRow
    → Type 0
Decides i row expiry live none answer = answer ≡ (refused identity_missing, live)
Decides i row expiry live (some fingerprint) answer =
    ((any (replay_clash (row fingerprint)) live ≡ true)
      × (answer ≡ (refused (replay_detected (existing_replay i (some fingerprint) live)), live)))
    ⊎ ((any (replay_clash (row fingerprint)) live ≡ false)
        × (answer ≡ (fresh expiry, row fingerprint ∷ live)))

pub assert_not_replay-Decides :
    (i : Identity) (tool : Option String) (window now later : ℕ) (rows : List ReplayRow)
    → let expiry = later + window * 1000 in
      Decides i
        (λ fingerprint. replay_row i tool fingerprint now expiry)
        expiry
        (delete_expired now rows)
        (build_payment_fingerprint i)
        (assert_not_replay i tool window now later rows)
unfolding assert_not_replay insert_replay_nonce
assert_not_replay-Decides i tool window now later rows =
    elim (Option-cases (build_payment_fingerprint i)) [
      | inl unnamed ↦ rw (unnamed, assert_not_replay) refl
      | inr (fingerprint, named) ↦
          rw (named, assert_not_replay)
            (elim (Bool-cases (
              any (replay_clash (replay_row i tool fingerprint now (later + window * 1000)))
                (delete_expired now rows))) [
                  | inl clash ↦ inl (clash, rw clash)
                  | inr free ↦ inr (free, rw free)
                ])
    ]

Check-cases :
    (k : Check) → ((expiry : ℕ) × (k ≡ fresh expiry)) ⊎ ((why : Refusal) × (k ≡ refused why))
Check-cases (fresh expiry) = inl (expiry, refl)
Check-cases (refused why) = inr (why, refl)

unfoldable pub check_of : Request → Readings → Payments → Check × List ReplayRow
check_of q c s =
    assert_not_replay (identity_of q) (some q.tool_name) q.replay_window_seconds c.replay_now
      c.expiry_base s.replay_nonces

-- A reservation goes no further than its check, and keeps the table that the check leaves.
pub reserve-refused :
    (q : Request) (c : Readings) (s : Payments) {why : Refusal}
    → (check_of q c s).0 ≡ refused why
    → reserve_paid_operation q c s ≡ (rejected why, s)
unfolding reserve_paid_operation check_of
reserve-refused q c s e = rw (e, reserve_paid_operation) refl

pub reserve-nonces :
    (q : Request) (c : Readings) (s : Payments)
    → ((reserve_paid_operation q c s).1 ≡ s)
      ⊎ ((reserve_paid_operation q c s).1.replay_nonces ≡ (check_of q c s).1)
unfolding reserve_paid_operation check_of
reserve-nonces q c s = ground arith

reserved-nonces :
    (q : Request) (c : Readings) (s : Payments) {r : ReceiptRow}
    → (reserve_paid_operation q c s).0 ≡ reserved r
    → (reserve_paid_operation q c s).1.replay_nonces ≡ (check_of q c s).1
unfolding reserve_paid_operation check_of
reserved-nonces q c s h = ground arith

unfoldable pub row_of : Request → Readings → String → ReplayRow
row_of q c fingerprint =
    replay_row (identity_of q) (some q.tool_name) fingerprint c.replay_now
      (c.expiry_base + q.replay_window_seconds * 1000)

unfoldable pub expiry_of : Request → Readings → ℕ
expiry_of q c = c.expiry_base + q.replay_window_seconds * 1000

pub check_of-Decides :
    (q : Request) (c : Readings) (s : Payments)
    → Decides
        (identity_of q)
        (row_of q c)
        (expiry_of q c)
        (delete_expired c.replay_now s.replay_nonces)
        (build_payment_fingerprint (identity_of q))
        (check_of q c s)
unfolding check_of row_of expiry_of
check_of-Decides q c s =
    assert_not_replay-Decides (identity_of q) (some q.tool_name) q.replay_window_seconds
      c.replay_now c.expiry_base s.replay_nonces

module _ (i : Identity) (row : String → ReplayRow) (expiry : ℕ) (live : List ReplayRow) where
  -- A check that is not refused has put its row in.
  Decides-fresh :
      (o : Option String) (k : Check × List ReplayRow)
      → Decides i row expiry live o k
      → ((why : Refusal) → k.0 ≡ refused why → ⊥)
      → (fingerprint : String) × (o ≡ some fingerprint) × (k.1 ≡ row fingerprint ∷ live)
  Decides-fresh none k d h = absurd (h identity_missing (ap (λ x. x.0) d))
  Decides-fresh (some f) k (inl d) h = absurd (h _ (ap (λ x. x.0) d.1))
  Decides-fresh (some f) k (inr d) h = (f, refl, ap (λ x. x.1) d.1)

  -- Rows that have not run out stay.
  pub Decides-any :
      (t : ReplayRow → Bool) (o : Option String) (k : Check × List ReplayRow)
      → Decides i row expiry live o k
      → any t live ≡ true
      → any t k.1 ≡ true
  Decides-any t none k d h = rw d h
  Decides-any t (some f) k (inl d) h = rw d.1 h
  Decides-any t (some f) k (inr d) h = rw d.1 (ground arith)

  -- A row that clashes is turned away.
  pub Decides-clash :
      (o : Option String) (k : Check × List ReplayRow)
      → Decides i row expiry live o k
      → ((f : String) → o ≡ some f → any (replay_clash (row f)) live ≡ true)
      → (why : Refusal) × (k.0 ≡ refused why)
  Decides-clash none k d h = (identity_missing, ap (λ x. x.0) d)
  Decides-clash (some f) k (inl d) h = (_, ap (λ x. x.0) d.1)
  Decides-clash (some f) k (inr d) h = cc (d.0, h f refl)

-- The row that a reservation leaves in the table of nonces.
pub reserved-row :
    (q : Request) (c : Readings) (s : Payments) {r : ReceiptRow}
    → (reserve_paid_operation q c s).0 ≡ reserved r
    → (f : String) × (build_payment_fingerprint (identity_of q) ≡ some f)
      × ((reserve_paid_operation q c s).1.replay_nonces
          ≡ row_of q c f ∷ delete_expired c.replay_now s.replay_nonces)
reserved-row q c s h =
    let (f, named, e) =
      Decides-fresh (identity_of q) (row_of q c) (expiry_of q c) _ _ (check_of q c s)
        (check_of-Decides q c s) (λ why r. cc (h, ap (λ x. x.0) (reserve-refused q c s r))) in
    (f, named, reserved-nonces q c s h ∙ e)
