-- ===== src/Base/Tables.antt =====
-- Tables whose rows do not clash, and row-by-row relations between two states of a table.
use mathlib.Core.Path.{◌≡◌, refl, subst, sym, ◌∙◌}
use mathlib.Core.Bool.{Bool, true, false}
use mathlib.Core.Logic.{inl, inr}
use mathlib.Core.Option.{none, some}
use mathlib.Core.List.{List, [], ◌∷◌}
use native.Mathlib.Omega.{arith}
use infopunks_trust_layer_ag.Base.Tests.{Bool-cases}
use infopunks_trust_layer_ag.Base.Lists.{any, find_row, filter, update_rows}

module _ {ℓ} {A : Type ℓ} where
  -- No two rows clash: what a UNIQUE index keeps.
  abbrev pub Distinct : (A → A → Bool) → List A → Type 0
  Distinct clash [] = Unit
  Distinct clash (x ∷ xs) = (any (clash x) xs ≡ false) × Distinct clash xs

  pub any_weaken :
      (p q : A → Bool) (xs : List A)
      → ((x : A) → p x ≡ true → q x ≡ true)
      → any p xs ≡ true
      → any q xs ≡ true
  any_weaken p q [] h e = e
  any_weaken p q (x ∷ xs) h e = ground (arith, h x, any_weaken p q xs h)

  pub any-filter-false :
      (p q : A → Bool) (xs : List A) → any p xs ≡ false → any p (filter q xs) ≡ false
  any-filter-false p q [] e = refl
  any-filter-false p q (x ∷ xs) e = ground (arith, any-filter-false p q xs)

  pub any-filter_kept :
      (p q : A → Bool) (xs : List A)
      → ((x : A) → p x ≡ true → q x ≡ true)
      → any p xs ≡ true
      → any p (filter q xs) ≡ true
  any-filter_kept p q [] h e = e
  any-filter_kept p q (x ∷ xs) h e = ground (arith, h x, any-filter_kept p q xs h)

  pub filter-Distinct :
      (clash : A → A → Bool) (q : A → Bool) (xs : List A)
      → Distinct clash xs
      → Distinct clash (filter q xs)
  filter-Distinct clash q [] d = tt
  filter-Distinct clash q (x ∷ xs) d =
      ground (arith, filter-Distinct clash q xs, any-filter-false (clash x) q xs)

  -- Nothing that satisfies `p` is found in a table where nothing clashes with a row like it.
  pub find_row-any : (p : A → Bool) (xs : List A) → any p xs ≡ false → find_row p xs ≡ none
  find_row-any p [] e = refl
  find_row-any p (x ∷ xs) e = ground (arith, find_row-any p xs)

  pub any-find_row :
      (p : A → Bool) (xs : List A) → any p xs ≡ true → (x : A) × (find_row p xs ≡ some x)
  any-find_row p [] e = cc
  any-find_row p (x ∷ xs) e = elim (Bool-cases (p x)) [
    | inl here ↦ (x, rw here)
    | inr there ↦ let (y, found) = any-find_row p xs (ground arith) in (y, rw there found)
  ]

  pub find_row-test : (p : A → Bool) (x : A) (xs : List A) → find_row p xs ≡ some x → p x ≡ true
  find_row-test p x [] e = cc
  find_row-test p x (y ∷ ys) e = ground (arith, find_row-test p x ys)

  pub find_row_ext :
      (p q : A → Bool) (xs : List A) → ((x : A) → p x ≡ q x) → find_row p xs ≡ find_row q xs
  find_row_ext p q [] h = refl
  find_row_ext p q (x ∷ xs) h = ground (arith, h x, find_row_ext p q xs h)

  pub update_rows-any :
      (p : A → Bool) (f : A → A) (xs : List A) → any p xs ≡ false → update_rows p f xs ≡ xs
  update_rows-any p f [] e = refl
  update_rows-any p f (x ∷ xs) e = ground (arith, update_rows-any p f xs)

  -- Behind a row that passes the test, no row does.
  pub only_one :
      (clash : A → A → Bool) (p : A → Bool) (x : A) (xs : List A)
      → ((y : A) → p x ≡ true → p y ≡ true → clash x y ≡ true)
      → p x ≡ true
      → any (clash x) xs ≡ false
      → any p xs ≡ false
  only_one clash p x [] u here e = refl
  only_one clash p x (y ∷ ys) u here e = ground (arith, u y here, only_one clash p x ys u here)

-- The rows of the two tables are related one by one.
pub data Each {ℓ κ} {A : Type ℓ} (R : A → A → Type κ) : List A → List A → Type (ℓ ⊔ κ) where
  done : Each R [] []
  both : {x y : A} {xs ys : List A} → R x y → Each R xs ys → Each R (x ∷ xs) (y ∷ ys)

-- The second table has, behind rows that were added in front, the rows of the first.
pub data Extends {ℓ κ} {A : Type ℓ} (R : A → A → Type κ) : List A → List A → Type (ℓ ⊔ κ) where
  kept : {xs ys : List A} → Each R xs ys → Extends R xs ys
  added : {xs ys : List A} {y : A} → Extends R xs ys → Extends R xs (y ∷ ys)

module _ {ℓ κ} {A : Type ℓ} (R : A → A → Type κ) where
  pub Each-refl : ((x : A) → R x x) → (xs : List A) → Each R xs xs
  Each-refl r [] = done
  Each-refl r (x ∷ xs) = both (r x) (Each-refl r xs)

  pub Each-trans :
      ((x y z : A) → R x y → R y z → R x z)
      → {xs ys zs : List A} → Each R xs ys
      → Each R ys zs
      → Each R xs zs
  Each-trans t done done = done
  Each-trans t (both p ps) (both q qs) = both (t _ _ _ p q) (Each-trans t ps qs)

  pub Extends-Each :
      ((x y z : A) → R x y → R y z → R x z)
      → {xs ys zs : List A} → Extends R xs ys
      → Each R ys zs
      → Extends R xs zs
  Extends-Each t (kept e) f = kept (Each-trans t e f)
  Extends-Each t (added e) (both q qs) = added (Extends-Each t e qs)

  pub Extends-trans :
      ((x y z : A) → R x y → R y z → R x z)
      → {xs ys zs : List A} → Extends R xs ys
      → Extends R ys zs
      → Extends R xs zs
  Extends-trans t e (kept f) = Extends-Each t e f
  Extends-trans t e (added f) = added (Extends-trans t e f)

  -- A test that related rows pass alike.
  pub Each-any :
      (p : A → Bool)
      → ((x y : A) → R x y → p x ≡ p y)
      → {xs ys : List A} → Each R xs ys
      → any p xs ≡ any p ys
  Each-any p h done = refl
  Each-any p h (both {x = a} {y = b} r e) = ground (arith, h a b r, Each-any p h e)

  pub Extends-any :
      (p : A → Bool)
      → ((x y : A) → R x y → p x ≡ p y)
      → {xs ys : List A} → Extends R xs ys
      → any p xs ≡ true
      → any p ys ≡ true
  Extends-any p h (kept e) a = ground (arith, Each-any p h e)
  Extends-any p h (added {y = b} e) a = ground (arith, Extends-any p h e a)

  pub Each-find_row :
      (p : A → Bool)
      → ((x y : A) → R x y → p x ≡ p y)
      → {xs ys : List A} {x : A} → Each R xs ys
      → find_row p xs ≡ some x
      → (y : A) × (find_row p ys ≡ some y) × R x y
  Each-find_row p h done f = cc
  Each-find_row p h {x = v} (both {x = a} {y = b} r e) f = elim (Bool-cases (p a)) [
    | inl here ↦ (b, ground (arith, h a b r), subst (λ (z : A). R z b) (ground arith) r)
    | inr there ↦
        let (y, found, related) = Each-find_row p h e (ground arith) in
        (y, ground (arith, h a b r), related)
  ]

  -- An update that relates the only row which passes the test to its new value.
  pub update_rows-Each :
      ((x : A) → R x x)
      → (clash : A → A → Bool) (p : A → Bool) (f : A → A)
      → ((x y : A) → p x ≡ true → p y ≡ true → clash x y ≡ true)
      → {c : A} (xs : List A) → Distinct clash xs
      → find_row p xs ≡ some c
      → R c (f c)
      → Each R xs (update_rows p f xs)
  update_rows-Each r clash p f u [] d e m = cc
  update_rows-Each r clash p f u {c = k} (x ∷ xs) d e m = elim (Bool-cases (p x)) [
    | inl here ↦
        rw (here, update_rows-any p f xs (only_one clash p x xs (u x) here d.0))
          (both (subst (λ (z : A). R z (f z)) (ground arith) m) (Each-refl r xs))
    | inr there ↦ rw there (both (r x) (update_rows-Each r clash p f u xs d.1 (ground arith) m))
  ]

  pub update_rows-Each_all :
      (p : A → Bool) (f : A → A) (xs : List A)
      → ((x : A) → R x x)
      → ((x : A) → R x (f x))
      → Each R xs (update_rows p f xs)
  update_rows-Each_all p f [] r h = done
  update_rows-Each_all p f (x ∷ xs) r h = elim (Bool-cases (p x)) [
    | inl here ↦ rw here (both (h x) (update_rows-Each_all p f xs r h))
    | inr there ↦ rw there (both (r x) (update_rows-Each_all p f xs r h))
  ]

  -- Rows that keep what the clash reads stay distinct.
  pub Each-Distinct :
      (clash : A → A → Bool)
      → ((x x' y y' : A) → R x x' → R y y' → clash x y ≡ clash x' y')
      → {xs ys : List A} → Each R xs ys
      → Distinct clash xs
      → Distinct clash ys
  Each-Distinct clash h done d = tt
  Each-Distinct clash h (both {x = a} {y = b} {xs = as'} {ys = bs} r e) d =
      (sym (any_head as' bs e) ∙ d.0, Each-Distinct clash h e d.1)
    where
      any_head : (us vs : List A) → Each R us vs → any (clash a) us ≡ any (clash b) vs
      any_head us vs done = refl
      any_head us vs (both {x = u} {y = v} {xs = us'} {ys = vs'} q f) =
          ground (arith, h a b u v r q, any_head us' vs' f)

  -- What a unique test finds in a table, it finds, evolved, in one that extends it.
  pub Extends-find_row :
      (clash : A → A → Bool) (p : A → Bool)
      → ((x y : A) → p x ≡ true → p y ≡ true → clash x y ≡ true)
      → ((x y : A) → R x y → p x ≡ p y)
      → {xs ys : List A} {x : A} → Extends R xs ys
      → Distinct clash ys
      → find_row p xs ≡ some x
      → (y : A) × (find_row p ys ≡ some y) × R x y
  Extends-find_row clash p u h (kept e) d f = Each-find_row p h e f
  Extends-find_row clash p u h (added {ys = zs} {y = b} e) d f =
      let (y, found, related) = Extends-find_row clash p u h e d.1 f in
      elim (Bool-cases (p b)) [
        | inl here ↦ absurd (not_both here y found)
        | inr there ↦ (y, rw there found, related)
      ]
    where
      not_both : p b ≡ true → (y : A) → find_row p zs ≡ some y → ⊥
      not_both here y found = cc (find_row-any p zs (only_one clash p b zs (u b) here d.0))
