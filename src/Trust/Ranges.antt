-- ===== src/Trust/Ranges.antt =====
-- The default bands cover the scores in order.
use infopunks_trust_layer_ag.Base.{ℕ, ◌≤◌, ◌≡◌, arith, ltb, if◌then◌else◌}
use infopunks_trust_layer_ag.Trust.Band.{band_order, score_band, default_bands}

-- The band's place, read off the lower ends alone.
abbrev place : ℕ → ℕ
place s =
    if ltb s 20
    then 0
    else if ltb s 40
    then 1
    else if ltb s 60
    then 2
    else if ltb s 75
    then 3
    else if ltb s 90
    then 4
    else 5

score_band-place : (s : ℕ) → s ≤ 100 → band_order (score_band s default_bands) ≡ place s
unfolding score_band
score_band-place s h = ground arith

place-le : (s s' : ℕ) → s ≤ s' → place s ≤ place s'
place-le s s' h = ground arith

-- Of two scores of at most 100, the higher one is never in a lower band of the default policy.
pub score_band-le :
    (s s' : ℕ)
    → s ≤ s'
    → s' ≤ 100
    → band_order (score_band s default_bands) ≤ band_order (score_band s' default_bands)
score_band-le s s' h top =
    omega (arith, score_band-place s (omega arith), score_band-place s' top, place-le s s' h)
