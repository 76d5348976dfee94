-- ===== src/Base/Text.antt =====
-- Text as JavaScript treats it: concatenation, truthiness, lower case.
use Prim.Native.Char.{Char, code}
use Prim.Native.String.{String, ◌++◌}
use mathlib.Core.Path.{◌≡◌, refl, sym, ◌∙◌}
use mathlib.Core.Bool.{Bool, true, false}
use mathlib.Core.Option.{Option, none, some}
use mathlib.Core.List.{List, [], ◌∷◌}
use text.Mathlib.Text.{◌==◌}
use text.Mathlib.TextEquality.{eq_iff}
use infopunks_trust_layer_ag.Base.Tests.{eqb, if◌then◌else◌}

infixr 66 ◌^^◌
abbrev pub ◌^^◌ : String → String → String
s ^^ t = s ++ t

-- `Boolean(s)` for a string, and for one that may be absent.
abbrev pub is_empty : String → Bool
is_empty String.[] = true
is_empty (String.◌∷◌ c s) = false

abbrev pub truthy : Option String → Bool
truthy none = false
truthy (some String.[]) = false
truthy (some (String.◌∷◌ c s)) = true

abbrev pub text_of : Option String → String
text_of none = ""
text_of (some s) = s

-- A column with a UNIQUE index: two rows clash in it if neither is NULL and they are equal.
abbrev pub same_key : Option String → Option String → Bool
same_key none b = false
same_key (some a) none = false
same_key (some a) (some b) = a == b

-- `a === b` for columns that may be NULL
abbrev pub same_column : Option String → Option String → Bool
same_column none none = true
same_column none (some b) = false
same_column (some a) none = false
same_column (some a) (some b) = a == b

pub eq_join : (a b k : String) → (a == k) ≡ true → (b == k) ≡ true → (a == b) ≡ true
eq_join a b k p q = (eq_iff a b).1 ((eq_iff a k).0 p ∙ sym ((eq_iff b k).0 q))

pub same_key_join :
    (a b k : Option String) → same_key a k ≡ true → same_key b k ≡ true → same_key a b ≡ true
same_key_join none b k p q = cc
same_key_join (some a) none k p q = cc
same_key_join (some a) (some b) none p q = cc
same_key_join (some a) (some b) (some k) p q = eq_join a b k p q

abbrev upper_to_lower : List (Char × Char)
upper_to_lower =
    ("A", "a")
    ∷ ("B", "b")
    ∷ ("C", "c")
    ∷ ("D", "d")
    ∷ ("E", "e")
    ∷ ("F", "f")
    ∷ ("G", "g")
    ∷ ("H", "h")
    ∷ ("I", "i")
    ∷ ("J", "j")
    ∷ ("K", "k")
    ∷ ("L", "l")
    ∷ ("M", "m")
    ∷ ("N", "n")
    ∷ ("O", "o")
    ∷ ("P", "p")
    ∷ ("Q", "q")
    ∷ ("R", "r")
    ∷ ("S", "s")
    ∷ ("T", "t")
    ∷ ("U", "u")
    ∷ ("V", "v")
    ∷ ("W", "w")
    ∷ ("X", "x")
    ∷ ("Y", "y")
    ∷ ("Z", "z")
    ∷ []

lower_char : List (Char × Char) → Char → Char
lower_char [] c = c
lower_char ((u, l) ∷ rest) c = if eqb (code u) (code c) then l else lower_char rest c

-- `toLowerCase` on ASCII; other characters stay.
unfoldable pub to_lower_case : String → String
unfolding lower_char
to_lower_case String.[] = ""
to_lower_case (String.◌∷◌ c s) = String.◌∷◌ (lower_char upper_to_lower c) (to_lower_case s)

upper_char : List (Char × Char) → Char → Char
upper_char [] c = c
upper_char ((u, l) ∷ rest) c = if eqb (code l) (code c) then u else upper_char rest c

-- `toUpperCase`, likewise.
unfoldable pub to_upper_case : String → String
unfolding upper_char
to_upper_case String.[] = ""
to_upper_case (String.◌∷◌ c s) = String.◌∷◌ (upper_char upper_to_lower c) (to_upper_case s)

to_upper_case_test : to_upper_case "uSdc-9" ≡ "USDC-9"
unfolding to_upper_case
to_upper_case_test = refl

to_lower_case_test : to_lower_case "ReVersed-9" ≡ "reversed-9"
unfolding to_lower_case
to_lower_case_test = refl
