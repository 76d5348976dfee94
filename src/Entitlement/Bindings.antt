-- ===== src/Entitlement/Bindings.antt =====
-- The sessions of the table: each bound to one token and one subject, for good.
use infopunks_trust_layer_ag.Base.{
  ◌≡◌, refl, ◌∙◌, inl, inr, String, Bool, true, false, ◌||◌, Option, some, List, [], ◌∷◌, arith,
  ◌==◌, eq_iff, All, Bool-cases, truthy, same_key, eq_join, same_key_join, any, find_row,
  update_rows, Distinct, Each, done, both, Extends, kept, added, Each-refl, Each-Distinct,
  update_rows-Each, only_one, any_weaken, any-find_row,
}
use infopunks_trust_layer_ag.Entitlement.Sessions.{
  Session, is_session, has_jti, jti_clash, refreshed, upsert_entitlement_session,
}

-- Two rows of one id or of one token.
abbrev pub session_clash : Session → Session → Bool
session_clash a b = b.session_id == a.session_id || same_key b.token_jti a.token_jti

-- The row names a token and a subject.
abbrev pub IsFull : Session → Type 0
IsFull r = (truthy r.token_jti ≡ true) × (truthy r.token_subject ≡ true)

abbrev pub IsBound : List Session → Type 0
IsBound rows = Distinct session_clash rows × All IsFull rows

-- The same session, of the same token and subject.
abbrev pub Binds : Session → Session → Type 0
Binds a b =
    (a.session_id ≡ b.session_id)
    × (a.token_jti ≡ b.token_jti)
    × (a.token_subject ≡ b.token_subject)

pub Binds-refl : (a : Session) → Binds a a
Binds-refl a = (refl, refl, refl)

pub Binds-trans : (a b c : Session) → Binds a b → Binds b c → Binds a c
Binds-trans a b c (p, q, r) (p', q', r') = (p ∙ p', q ∙ q', r ∙ r')

Each-IsFull : {xs ys : List Session} → Each Binds xs ys → All IsFull xs → All IsFull ys
Each-IsFull done h = tt
Each-IsFull (both {x = a} {y = b} r e) h = ((cc, cc), Each-IsFull e h.1)

-- What the guards of `validate` find out about a session that is about to be stored.
pub record IsFitting (s : Session) (rows : List Session) : Type 0 where
  pub full : IsFull s
  pub by_jti :
      (z : Session) → find_row (has_jti s.token_jti) rows ≡ some z → z.session_id ≡ s.session_id
  pub by_id :
      (z : Session) → find_row (is_session s.session_id) rows ≡ some z → IsFull z → Binds z s

-- Rows of a test that no two share: if the first one does not pass a narrower test, none does.
any_unique :
    (p q : Session → Bool) (rows : List Session)
    → ((x y : Session) → p x ≡ true → p y ≡ true → session_clash x y ≡ true)
    → ((x : Session) → q x ≡ true → p x ≡ true)
    → ((z : Session) → find_row p rows ≡ some z → q z ≡ false)
    → Distinct session_clash rows
    → any q rows ≡ false
any_unique p q [] u w f d = refl
any_unique p q (r ∷ rs) u w f d = elim (Bool-cases (p r)) [
  | inl here ↦ rw (f r (rw here)) (none_of (only_one session_clash p r rs (u r) here d.0))
  | inr there ↦ rw (narrow there) (any_unique p q rs u w (λ z h. f z (rw there h)) d.1)
]
  where
    none_of : any p rs ≡ false → any q rs ≡ false
    none_of h = elim (Bool-cases (any q rs)) [
      | inl found ↦ absurd (cc (any_weaken q p rs w found, h))
      | inr nowhere ↦ nowhere
    ]

    narrow : p r ≡ false → q r ≡ false
    narrow h = elim (Bool-cases (q r)) [
      | inl passed ↦ absurd (cc (w r passed, h))
      | inr nowhere ↦ nowhere
    ]

find_row-IsFull :
    (p : Session → Bool) (z : Session) (rows : List Session)
    → All IsFull rows
    → find_row p rows ≡ some z
    → IsFull z
find_row-IsFull p z [] h e = cc
find_row-IsFull p z (r ∷ rs) h e = elim (Bool-cases (p r)) [
  | inl here ↦ let found : r ≡ z = ground arith in rw found at h.0
  | inr there ↦ find_row-IsFull p z rs h.1 (ground arith)
]

find_row-passes :
    (p q : Session → Bool) (z : Session) (rows : List Session)
    → find_row p rows ≡ some z
    → q z ≡ true
    → any q rows ≡ true
find_row-passes p q z [] e h = cc
find_row-passes p q z (r ∷ rs) e h = ground (arith, find_row-passes p q z rs)

same_token :
    (jti : Option String) (x y : Session)
    → has_jti jti x ≡ true
    → has_jti jti y ≡ true
    → session_clash x y ≡ true
same_token jti x y h k = ground (arith, same_key_join y.token_jti x.token_jti jti)

pub same_id :
    (id : String) (x y : Session)
    → is_session id x ≡ true
    → is_session id y ≡ true
    → session_clash x y ≡ true
same_id id x y h k = ground (arith, eq_join y.session_id x.session_id id)

any_either :
    (p q : Session → Bool) (rows : List Session)
    → any p rows ≡ false
    → any q rows ≡ false
    → any (λ r. p r || q r) rows ≡ false
any_either p q [] h k = refl
any_either p q (r ∷ rs) h k = ground (arith, any_either p q rs)

Binds-clash :
    (a a' b b' : Session) → Binds a a' → Binds b b' → session_clash a b ≡ session_clash a' b'
Binds-clash a a' b b' p q = rw (p.0, p.1, q.0, q.1)

module _ (s : Session) (rows : List Session) (fit : IsFitting s rows) (bound : IsBound rows) where
  -- The statement that stores the session does not fail.
  no_clash : any (jti_clash s) rows ≡ false
  no_clash =
      any_unique (has_jti s.token_jti) (jti_clash s) rows (same_token s.token_jti)
        (λ x h. ground arith)
        (λ z h. ground (arith, (eq_iff z.session_id s.session_id).1 (fit.by_jti z h))) bound.0

  -- A session of a new id has a new token.
  new_token : any (is_session s.session_id) rows ≡ false → any (has_jti s.token_jti) rows ≡ false
  new_token new = elim (Bool-cases (any (has_jti s.token_jti) rows)) [
    | inr nowhere ↦ nowhere
    | inl taken ↦
        let (z, found) = any-find_row (has_jti s.token_jti) rows taken in
        absurd (
          cc (
            find_row-passes (has_jti s.token_jti) (is_session s.session_id) z rows found
                ((eq_iff z.session_id s.session_id).1 (fit.by_jti z found)),
            new,
          ))
  ]

  -- It is stored: in front if its id is new, else in its row, whose token and subject are its own.
  pub upsert_entitlement_session-IsBound :
      (rows' : List Session) × (upsert_entitlement_session s rows ≡ some rows')
      × IsBound rows'
      × Extends Binds rows rows'
  unfolding upsert_entitlement_session
  upsert_entitlement_session-IsBound = elim (Bool-cases (any (is_session s.session_id) rows)) [
    | inr new ↦ (
      s ∷ rows,
      rw (no_clash, upsert_entitlement_session) (rw new refl),
      (
        (
          any_either (is_session s.session_id) (has_jti s.token_jti) rows new (new_token new),
          bound.0,
        ),
        (fit.full, bound.1),
      ),
      added (kept (Each-refl Binds Binds-refl rows)),
    )
    | inl old ↦
        let (z, found) = any-find_row (is_session s.session_id) rows old in
        let mine =
          fit.by_id z found (find_row-IsFull (is_session s.session_id) z rows bound.1 found) in
        let e =
          update_rows-Each Binds Binds-refl session_clash (is_session s.session_id) (refreshed s)
            (same_id s.session_id) rows bound.0 found (refreshes z mine) in
        (
          update_rows (is_session s.session_id) (refreshed s) rows,
          rw (no_clash, upsert_entitlement_session) (rw old refl),
          (Each-Distinct Binds session_clash Binds-clash e bound.0, Each-IsFull e bound.1),
          kept e,
        )
  ]
    where
      refreshes : (z : Session) → Binds z s → Binds z (refreshed s z)
      refreshes z b = (refl, b.1, b.2)
