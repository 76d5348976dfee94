-- ===== src/Entitlement/Scopes.antt =====
-- Scopes, audiences and headers of entitlement tokens: `normalizeScopeTokens`, `scopeIncludes`,
-- `normalizeAudiences` and `extractToken`.
use Prim.Native.Char.{Char, code}
use infopunks_trust_layer_ag.Base.{
  ℕ, String, Bool, not, ◌&&◌, ◌||◌, Option, none, some, List, [], ◌∷◌, ◌++◌, ◌==◌, ◌^^◌, leb, eqb,
  any, filter, is_empty, if◌then◌else◌,
}

abbrev in_range : ℕ → ℕ → Char → Bool
in_range low high c = leb low (code c) && leb (code c) high

-- `\s` of regular expressions, which is what `trim` takes off too.
unfoldable pub is_space : Char → Bool
is_space c =
    in_range 9 13 c
    || in_range 32 32 c
    || in_range 160 160 c
    || in_range 5760 5760 c
    || in_range 8192 8202 c
    || in_range 8232 8233 c
    || in_range 8239 8239 c
    || in_range 8287 8287 c
    || in_range 12288 12288 c
    || in_range 65279 65279 c

-- The pieces between characters that a test holds of.
unfoldable pub split_on : (Char → Bool) → String → List String
split_on p String.[] = "" ∷ []
split_on p (String.◌∷◌ c s) =
    let rest = split_on p s in
    if p c
    then "" ∷ rest
    else elim rest [ [] ↦ String.◌∷◌ c "" ∷ [] | first ∷ more ↦ String.◌∷◌ c first ∷ more ]

-- `split(/\s+/)`, then `trim` and `filter(Boolean)`: the pieces without white space, the empty ones
-- left out.
unfoldable pub words : String → List String
unfolding split_on is_space
words s = filter (λ w. not (is_empty w)) (split_on is_space s)

unfoldable pub trim_start : String → String
unfolding is_space
trim_start String.[] = ""
trim_start (String.◌∷◌ c s) = let rest = trim_start s in if is_space c then rest else String.◌∷◌ c s

unfoldable pub trim_end : String → String
unfolding is_space
trim_end String.[] = ""
trim_end (String.◌∷◌ c s) =
    let rest = trim_end s in if is_space c && is_empty rest then "" else String.◌∷◌ c rest

unfoldable pub trim : String → String
unfolding trim_start trim_end
trim s = trim_end (trim_start s)

-- `scope` or `scopes`: an array, a string, or neither.
pub data Scopes : Type 0 where
  listed : List String → Scopes
  spaced : String → Scopes
  no_scopes : Scopes

unfoldable pub all_words : List String → List String
all_words [] = []
all_words (s ∷ ss) = words s ++ all_words ss

unfoldable pub normalize_scope_tokens : Scopes → List String
unfolding all_words
normalize_scope_tokens (listed ss) = all_words ss
normalize_scope_tokens (spaced s) = words s
normalize_scope_tokens no_scopes = []

abbrev pub includes : String → List String → Bool
includes s ss = any (λ t. t == s) ss

unfoldable pub scope_includes : Scopes → String → Bool
scope_includes scopes tool =
    let tokens = normalize_scope_tokens scopes in
    includes "*" tokens
    || includes "mcp:*" tokens
    || includes tool tokens
    || includes ("mcp:" ^^ tool) tokens
    || includes ("tool:" ^^ tool) tokens

-- `aud`: an array, a string, or neither.
pub data Audience : Type 0 where
  many : List String → Audience
  one : String → Audience
  no_audience : Audience

unfoldable pub normalize_audiences : Audience → List String
normalize_audiences (many ss) = filter (λ s. not (is_empty s)) ss
normalize_audiences (one s) = if is_empty (trim s) then [] else trim s ∷ []
normalize_audiences no_audience = []

-- The text behind a prefix.
unfoldable pub after_prefix : String → String → Option String
after_prefix String.[] s = some s
after_prefix (String.◌∷◌ p ps) String.[] = none
after_prefix (String.◌∷◌ p ps) (String.◌∷◌ c s) =
    let rest = after_prefix ps s in if eqb (code p) (code c) then rest else none
