-- ===== src/Entitlement/Kept.antt =====
-- Sessions through any sequence of validations.
use infopunks_trust_layer_ag.Base.{
  ◌/◌, ◌≡◌, refl, sym, ap, inl, inr, String, true, false, not, ◌&&◌, Option, none, some, List, [],
  ◌∷◌, arith, ◌==◌, eq_iff, All, Bool-cases, Option-cases, truthy, text_of, find_row-test, ◌||◌,
  Extends, kept, Each-refl, Extends-trans, Extends-find_row,
}
use infopunks_trust_layer_ag.Entitlement.Token.{Claims, Crypto, decode_jwt}
use infopunks_trust_layer_ag.Entitlement.Guards.{
  Config, first_failure, signature_guards, session_of, Use,
}
use infopunks_trust_layer_ag.Entitlement.Sessions.{
  Session, Clock, Validated, denied, anonymous, entitled, not_stored, normalized, is_session,
  jti_guards, session_guards, get_entitlement_session_by_id, get_entitlement_session_by_jti,
  validate_decoded, validate,
}
use infopunks_trust_layer_ag.Entitlement.Admits.{IsAdmitted, Accepts, validate_claims-Accepts}
use infopunks_trust_layer_ag.Entitlement.Valid.{claim_guards-IsInForce, JwtPayload-cases}
use infopunks_trust_layer_ag.Entitlement.Bindings.{
  session_clash, same_id, IsFull, IsBound, IsFitting, Binds, Binds-refl, Binds-trans,
  upsert_entitlement_session-IsBound,
}

same_text :
    (a b : Option String)
    → truthy a ≡ true
    → truthy b ≡ true
    → (truthy a && not (text_of a == text_of b)) ≡ false
    → a ≡ b
same_text none b p q h = cc
same_text (some a) none p q h = cc
same_text (some a) (some b) p q h = ap some ((eq_iff a b).0 (ground arith))

-- What the guards on the row of the token, and those on the row of the session, say of these rows.
jti_guards-held :
    (clock : Clock) (c : Claims) (z : Session)
    → All (λ g. g.0 ≡ false) (jti_guards clock c (some z))
    → z.session_id ≡ text_of (session_of c)
unfolding jti_guards
jti_guards-held clock c z (_, (mine, _)) =
    (eq_iff z.session_id (text_of (session_of c))).0 (ground arith)

session_guards-held :
    (c : Claims) (z : Session)
    → truthy c.jti ≡ true
    → truthy c.sub ≡ true
    → IsFull z
    → All (λ g. g.0 ≡ false) (session_guards c (some z))
    → (z.token_jti ≡ c.jti) × (z.token_subject ≡ c.sub)
unfolding session_guards
session_guards-held c z jti sub full (token, (subject, _)) = (
  same_text z.token_jti c.jti full.0 jti token,
  same_text z.token_subject c.sub full.1 sub subject,
)

admitted-IsFitting :
    (config : Config) (use_ : Use) (clock : Clock) (c : Claims) (rows : List Session) (s : Session)
    → IsAdmitted config use_ clock rows c s
    → IsFitting s rows
unfolding normalized get_entitlement_session_by_id get_entitlement_session_by_jti
admitted-IsFitting config use_ clock c rows s a =
    let force = claim_guards-IsInForce config use_ (clock.now / 1000) c a.own_claims in
    rw a.described (record {
      full = (force.names_token, force.names_subject);
      by_jti = λ z found. jti_guards-held clock c z (rw found at a.own_jti);
      by_id = λ z found full.
          let (token, subject) =
            session_guards-held c z force.names_token force.names_subject full
              (rw found at a.own_session) in
          (
            (eq_iff z.session_id (text_of (session_of c))).0
                (find_row-test (is_session (text_of (session_of c))) z rows found),
            token,
            subject,
          );
    })

-- The session was stored and the rest kept, or nothing was stored.
abbrev pub Keeps : List Session → Validated × List Session → Type 0
Keeps rows (not_stored, rows') = ⊥
Keeps rows (denied e, rows') = rows' ≡ rows
Keeps rows (anonymous, rows') = rows' ≡ rows
Keeps rows (entitled s, rows') = IsBound rows' × Extends Binds rows rows'

accepted-Keeps :
    (config : Config) (use_ : Use) (clock : Clock) (c : Claims) (rows : List Session)
    (r : Validated × List Session)
    → IsBound rows
    → Accepts (λ c' s. (c' ≡ c) × IsAdmitted config use_ clock rows c s) rows r
    → Keeps rows r
accepted-Keeps config use_ clock c rows (denied e, rows') bound a = a
accepted-Keeps config use_ clock c rows (anonymous, rows') bound a = absurd a
accepted-Keeps config use_ clock c rows (not_stored, rows') bound
      (_, (_, s, (_, admitted), failed)) =
    let (_, stored, _, _) =
      upsert_entitlement_session-IsBound s rows
        (admitted-IsFitting config use_ clock c rows s admitted) bound in
    cc (stored, failed)
accepted-Keeps config use_ clock c rows (entitled s, rows') bound (_, (_, admitted), stored) =
    let (rows'', stored', bound', more) =
      upsert_entitlement_session-IsBound s rows
        (admitted-IsFitting config use_ clock c rows s admitted) bound in
    let same : rows'' ≡ rows' = cc (stored, stored') in rw (sym same) (bound', more)

-- In a table of sessions that are distinct in id and token and name a token and a subject, storing
-- the session of an accepted token never fails on the unique token; the table then is such a table
-- again and extends the one before; and every other outcome leaves it as it was.
pub validate-Keeps :
    (env : Crypto) (config : Config) (use_ : Use) (clock : Clock) (token : Option String)
    (rows : List Session)
    → IsBound rows
    → Keeps rows (validate env config use_ clock token rows)
unfolding validate validate_decoded
validate-Keeps env config use_ clock token rows bound = elim (Bool-cases (truthy token)) [
  | inr missing ↦
      elim (Bool-cases (use_.required || config.token_required || not config.fallback_allow)) [
        | inl needed ↦ rw (missing, validate) (rw needed refl)
        | inr free ↦ rw (missing, validate) (rw free refl)
      ]
  | inl given ↦ elim (Option-cases (decode_jwt env (text_of token))) [
    | inl malformed ↦ rw (given, malformed, validate) refl
    | inr (d, decoded) ↦ elim (Option-cases (first_failure (signature_guards env config d))) [
      | inr (e, bad) ↦ rw (given, decoded, bad, validate, validate_decoded) refl
      | inl signed ↦ elim (JwtPayload-cases d.payload) [
        | inl wrong ↦ rw (given, decoded, signed, wrong, validate, validate_decoded) refl
        | inr (c, read) ↦
            rw (given, decoded, signed, read, validate, validate_decoded)
              (accepted-Keeps config use_ clock c rows _ bound
                (validate_claims-Accepts config use_ clock c rows))
      ]
    ]
  ]
]

-- One call of `validate`.
pub record Attempt : Type 0 where
  pub purpose : Use
  pub clock : Clock
  pub token : Option String

module _ (env : Crypto) (config : Config) where
  unfoldable pub validate_run : List Attempt → List Session → List Session
  validate_run [] rows = rows
  validate_run (a ∷ as') rows =
      validate_run as' (validate env config a.purpose a.clock a.token rows).1

  after-Keeps :
      {rows : List Session} (r : Validated × List Session)
      → IsBound rows
      → Keeps rows r
      → IsBound r.1 × Extends Binds rows r.1
  after-Keeps (denied e, rows') bound k = rw k (bound, kept (Each-refl Binds Binds-refl _))
  after-Keeps (anonymous, rows') bound k = rw k (bound, kept (Each-refl Binds Binds-refl _))
  after-Keeps (not_stored, rows') bound k = absurd k
  after-Keeps (entitled s, rows') bound k = k

  validate_run-IsBound :
      (attempts : List Attempt) (rows : List Session)
      → IsBound rows
      → IsBound (validate_run attempts rows) × Extends Binds rows (validate_run attempts rows)
  unfolding validate_run
  validate_run-IsBound [] rows bound = (bound, kept (Each-refl Binds Binds-refl rows))
  validate_run-IsBound (a ∷ as') rows bound =
      let r = validate env config a.purpose a.clock a.token rows in
      let (bound', more) =
        after-Keeps r bound (validate-Keeps env config a.purpose a.clock a.token rows bound) in
      let (bound'', more') = validate_run-IsBound as' r.1 bound' in
      (bound'', Extends-trans Binds Binds-trans more more')

  -- In a table of sessions that are distinct in id and token and name a token and a subject, a
  -- stored session is still there after any sequence of validations, with the token and the subject
  -- that it was stored with.
  pub validate_run-Binds :
      (attempts : List Attempt) (rows : List Session) (id : String) (z : Session)
      → IsBound rows
      → get_entitlement_session_by_id id rows ≡ some z
      → (y : Session) × (get_entitlement_session_by_id id (validate_run attempts rows) ≡ some y)
        × Binds z y
  unfolding get_entitlement_session_by_id
  validate_run-Binds attempts rows id z bound found =
      let (bound', more) = validate_run-IsBound attempts rows bound in
      Extends-find_row Binds session_clash (is_session id) (same_id id) (λ x y b. rw b.0) more
        bound'.0 found
