-- ===== src/Authorize/Assets.antt =====
-- The assets that are accepted: `isHexAddress`, `normalizeAddress`, `normalizeConfiguredAssets` and
-- `isAcceptedAsset` of entitlements.mjs, and `canonicalAddressForSymbol` of x402-token-metadata.mjs.
use Prim.Native.Char.{Char, code}
use infopunks_trust_layer_ag.Base.{
  ℕ, zero, suc, String, Bool, false, ◌&&◌, ◌||◌, Option, none, some, List, [], ◌∷◌, ◌==◌, leb, eqb,
  ◌^^◌, is_empty, to_lower_case, to_upper_case, if◌then◌else◌,
}
use infopunks_trust_layer_ag.Entitlement.Scopes.{trim, includes}

abbrev in_codes : ℕ → ℕ → Char → Bool
in_codes low high c = leb low (code c) && leb (code c) high

-- `[a-fA-F0-9]`
unfoldable pub is_hex_digit : Char → Bool
is_hex_digit c = in_codes 48 57 c || (in_codes 65 70 c || in_codes 97 102 c)

-- `[a-fA-F0-9]{n}$`
unfoldable pub hex_digits : ℕ → String → Bool
unfolding is_hex_digit
hex_digits zero s = is_empty s
hex_digits (suc n) String.[] = false
hex_digits (suc n) (String.◌∷◌ c s) = is_hex_digit c && hex_digits n s

-- What stands behind `0x`; the test ignores case.
unfoldable pub address_digits : String → Option String
address_digits (String.◌∷◌ a (String.◌∷◌ b s)) =
    if eqb (code a) 48 && (eqb (code b) 120 || eqb (code b) 88) then some s else none
address_digits s = none

unfoldable pub is_hex_address : String → Bool
unfolding address_digits hex_digits
is_hex_address s = elim (address_digits s) [ none ↦ false | some digits ↦ hex_digits 40 digits ]

unfoldable pub normalize_address : String → Option String
unfolding address_digits hex_digits
normalize_address s = elim (address_digits s) [
  | none ↦ none
  | some digits ↦ if hex_digits 40 digits then some ("0x" ^^ to_lower_case digits) else none
]

-- `TOKENS_BY_NETWORK`
unfoldable pub canonical_address_for_symbol : String → String → Option String
canonical_address_for_symbol network symbol =
    let key = to_lower_case (trim network) in
    if to_upper_case (trim symbol) == "USDC"
    then if key == "eip155:84532"
      then some "0x036CbD53842c5426634e7929541eC2318f3dCF7e"
      else if key == "eip155:8453"
      then some "0x833589fCD6eDb6E08f4c7c32D4f71b54bdA02913"
      else none
    else none

unfoldable pub asset_address_for_symbol : String → String → Option String
unfolding normalize_address
asset_address_for_symbol symbol network = elim (canonical_address_for_symbol network symbol) [
  | none ↦ none
  | some address ↦ normalize_address address
]

-- The symbols in upper case, and the addresses in lower case.
pub record Accepted : Type 0 where
  pub symbols : List String
  pub addresses : List String

abbrev with_address : Option String → List String → List String
with_address none addresses = addresses
with_address (some a) addresses = a ∷ addresses

abbrev accept : String → String → Accepted → Accepted
accept network value a =
    if is_empty value
    then a
    else if is_hex_address value
    then record a { addresses = with_address (normalize_address value) a.addresses }
    else record {
      symbols = to_upper_case value ∷ a.symbols;
      addresses = with_address (asset_address_for_symbol (to_upper_case value) network) a.addresses;
    }

unfoldable pub normalize_configured_assets : List String → String → Accepted
normalize_configured_assets [] network = record { symbols = []; addresses = [] }
normalize_configured_assets (configured ∷ rest) network =
    accept network (trim configured) (normalize_configured_assets rest network)

abbrev pub has_address : Option String → List String → Bool
has_address none addresses = false
has_address (some a) addresses = includes a addresses

-- The asset is not empty.
unfoldable pub is_accepted_asset : String → String → List String → Bool
is_accepted_asset asset network assets =
    let accepted = normalize_configured_assets assets network in
    if is_hex_address asset
    then has_address (normalize_address asset) accepted.addresses
    else includes (to_upper_case asset) accepted.symbols
      || has_address (asset_address_for_symbol (to_upper_case asset) network) accepted.addresses
