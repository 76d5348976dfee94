-- ===== src/Trust/Band.antt =====
-- `scoreBand`, `bandAtLeast`, `validationEligible`, and the decision by band and risk level in
-- `computeResolution`.
use infopunks_trust_layer_ag.Base.{
  ℕ, Bool, ◌&&◌, Option, none, some, List, [], ◌∷◌, leb, if◌then◌else◌,
}

pub data Band : Type 0 where
  quarantined : Band
  restricted : Band
  watch : Band
  allowed : Band
  preferred : Band
  privileged : Band

-- `BAND_ORDER.indexOf`
abbrev pub band_order : Band → ℕ
band_order quarantined = 0
band_order restricted = 1
band_order watch = 2
band_order allowed = 3
band_order preferred = 4
band_order privileged = 5

unfoldable pub band_at_least : Band → Band → Bool
band_at_least current minimum = leb (band_order minimum) (band_order current)

-- An entry of `policy.trust_bands`.
pub record Range : Type 0 where
  pub band : Band
  pub low : ℕ
  pub high : ℕ

unfoldable pub score_band : ℕ → List Range → Band
score_band score [] = quarantined
score_band score (r ∷ rs) =
    if leb r.low score && leb score r.high then r.band else score_band score rs

-- `trust_bands` of the default policy of packages/schema.
abbrev pub default_bands : List Range
default_bands =
    record { band = privileged; low = 90; high = 100 }
    ∷ record { band = preferred; low = 75; high = 89 }
    ∷ record { band = allowed; low = 60; high = 74 }
    ∷ record { band = watch; low = 40; high = 59 }
    ∷ record { band = restricted; low = 20; high = 39 }
    ∷ record { band = quarantined; low = 0; high = 19 }
    ∷ []

pub data RiskLevel : Type 0 where
  low_risk : RiskLevel
  medium_risk : RiskLevel
  high_risk : RiskLevel

pub record Rule : Type 0 where
  pub minimum_band_for_execution : Band
  pub minimum_band_for_validation : Band

abbrev pub RiskRules : Type 0
RiskRules = RiskLevel → Rule

pub data Decision : Type 0 where
  allow : Decision
  allow_with_validation : Decision
  restrict : Decision
  deny : Decision

unfoldable pub mapping : Band → RiskLevel → Decision
mapping privileged risk = allow
mapping preferred low_risk = allow
mapping preferred medium_risk = allow
mapping preferred high_risk = allow_with_validation
mapping allowed low_risk = allow
mapping allowed medium_risk = allow_with_validation
mapping allowed high_risk = allow_with_validation
mapping watch low_risk = allow_with_validation
mapping watch medium_risk = allow_with_validation
mapping watch high_risk = restrict
mapping restricted low_risk = restrict
mapping restricted medium_risk = restrict
mapping restricted high_risk = deny
mapping quarantined risk = deny

-- `riskLevel === "high" && band === "restricted" ? "deny" : "restrict"`
unfoldable pub below_minimum : Band → RiskLevel → Decision
below_minimum restricted high_risk = deny
below_minimum band risk = restrict

unfoldable pub band_decision : RiskRules → Band → RiskLevel → Decision
band_decision rules band risk =
    if band_at_least band (rules risk).minimum_band_for_execution
    then mapping band risk
    else below_minimum band risk

-- The downgrade for low confidence.
unfoldable pub confident_decision : Bool → Decision → Decision
confident_decision low_confidence allow = if low_confidence then allow_with_validation else allow
confident_decision low_confidence decision = decision

unfoldable pub validation_eligible : RiskRules → Band → Option RiskLevel → Bool
validation_eligible rules band none =
    band_at_least band (rules medium_risk).minimum_band_for_validation
validation_eligible rules band (some risk) =
    band_at_least band (rules risk).minimum_band_for_validation
