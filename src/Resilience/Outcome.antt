-- ===== src/Resilience/Outcome.antt =====
-- What a resolution answers, after how many attempts, and what it leaves in the cache.
use infopunks_trust_layer_ag.Base.{
  ℕ, suc, ◌+◌, ◌≤◌, ◌<◌, ◌≡◌, refl, ap, ◌∙◌, ◌⊎◌, inl, inr, String, true, false, none, some, List,
  [], ◌∷◌, arith, eqb, length, Bool-cases, Option-cases,
}
use infopunks_trust_layer_ag.Resilience.Cache.{
  TrustResponse, CacheRow, get_cached_trust, set_cached_trust,
}
use infopunks_trust_layer_ag.Resilience.Upstream.{
  normalize_verified, normalize_degraded_from_cache, safe_default_fallback, Upstream, Tried,
  attempt_loop, fallback, resolve_trust_with_resilience,
}

-- The attempt comes to nothing: no answer, or one that the cache does not take.
abbrev pub Fails : Upstream → ℕ → Type 0
Fails env k = (env.answers k ≡ none) ⊎ (env.stores k ≡ false)

-- The loop from attempt `k` over `n` of them: the first that succeeds is answered and cached; if
-- none does, nothing is, and all have been made.
abbrev pub Tries : Upstream → String → ℕ → ℕ → List CacheRow → Tried → Type 0
Tries env subject k n cache t =
    ((i : ℕ) × (result : TrustResponse) × (k ≤ i)
      × (i < k + n)
      × (env.answers i ≡ some result)
      × (env.stores i ≡ true)
      × ((j : ℕ) → k ≤ j → j < i → Fails env j)
      × (t ≡ record {
        attempts = suc i;
        verified = some (normalize_verified result subject);
        cache = set_cached_trust subject (normalize_verified result subject) (env.clock i) cache;
      }))
    ⊎ (((j : ℕ) → k ≤ j → j < k + n → Fails env j)
        × (t ≡ record { attempts = k + n; verified = none; cache = cache }))

abbrev gave_up : ℕ → List CacheRow → Tried
gave_up attempts cache = record { attempts = attempts; verified = none; cache = cache }

-- A verified answer says so, and has a confidence of 0.8 to 1; a degraded one has at most 0.6.
abbrev pub IsVerified : TrustResponse → Type 0
IsVerified r =
    (r.mode ≡ some "verified")
    × (r.provisional ≡ some false)
    × ((c : ℕ) × (r.confidence ≡ some c) × (8000 ≤ c) × (c ≤ 10000))

abbrev pub IsDegraded : TrustResponse → Type 0
IsDegraded r =
    (r.mode ≡ some "degraded")
    × (r.provisional ≡ some true)
    × ((c : ℕ) × (r.confidence ≡ some c) × (c ≤ 6000))

normalize_verified-IsVerified :
    (result : TrustResponse) (subject : String) → IsVerified (normalize_verified result subject)
unfolding normalize_verified
normalize_verified-IsVerified result subject = (refl, refl, (_, refl, omega arith, omega arith))

fallback-IsDegraded :
    (subject : String) (cache : List CacheRow) → IsDegraded (fallback subject cache)
unfolding fallback safe_default_fallback normalize_degraded_from_cache
fallback-IsDegraded subject cache = elim (Option-cases (get_cached_trust subject cache)) [
  | inl missing ↦ rw (missing, fallback) (refl, refl, (_, refl, omega arith))
  | inr (cached, there) ↦ rw (there, fallback) (refl, refl, (_, refl, omega arith))
]

-- A resolution with `n` attempts: the first that succeeds, verified and cached, or the fallback.
abbrev pub Resolves :
    Upstream → String → ℕ → List CacheRow → TrustResponse × ℕ × List CacheRow → Type 0
Resolves env subject n cache (response, attempts, cache') =
    ((i : ℕ) × (result : TrustResponse) × (i < n)
      × (env.answers i ≡ some result)
      × (env.stores i ≡ true)
      × ((j : ℕ) → j < i → Fails env j)
      × (attempts ≡ suc i)
      × (response ≡ normalize_verified result subject)
      × (cache' ≡ set_cached_trust subject response (env.clock i) cache)
      × IsVerified response)
    ⊎ (((j : ℕ) → j < n → Fails env j)
        × (attempts ≡ n)
        × (response ≡ fallback subject cache)
        × (cache' ≡ cache)
        × IsDegraded response)

module _ (env : Upstream) (subject : String) where
  later :
      (k n : ℕ) (cache : List CacheRow) (t : Tried)
      → Fails env k
      → Tries env subject (suc k) n cache t
      → Tries env subject k (suc n) cache t
  later k n cache t f (inl (i, result, from, below, answered, stored, failed, end)) =
      inl (i, result, omega arith, omega arith, answered, stored, before, end)
    where
      before : (j : ℕ) → k ≤ j → j < i → Fails env j
      before j p q = elim (Bool-cases (eqb j k)) [
        | inl here ↦ let at : j ≡ k = ground arith in rw at f
        | inr beyond ↦ failed j (ground arith) q
      ]
  later k n cache t f (inr (failed, end)) = inr (all, end ∙ ap (λ m. gave_up m cache) (omega arith))
    where
      all : (j : ℕ) → k ≤ j → j < k + suc n → Fails env j
      all j p q = elim (Bool-cases (eqb j k)) [
        | inl here ↦ let at : j ≡ k = ground arith in rw at f
        | inr beyond ↦ failed j (ground arith) (ground arith)
      ]

  attempt_loop-Tries :
      (k : ℕ) (delays : List ℕ) (cache : List CacheRow)
      → Tries env subject k (length delays) cache (attempt_loop env subject k delays cache)
  unfolding attempt_loop
  attempt_loop-Tries k [] cache =
      inr ((λ j p q. absurd (omega arith)), ap (λ m. gave_up m cache) (omega arith))
  attempt_loop-Tries k (d ∷ ds) cache = elim (Option-cases (env.answers k)) [
    | inl silent ↦
        rw (silent, attempt_loop)
          (later k (length ds) cache _ (inl silent) (attempt_loop-Tries (suc k) ds cache))
    | inr (result, answered) ↦ elim (Bool-cases (env.stores k)) [
      | inr lost ↦
          rw (answered, lost, attempt_loop)
            (later k (length ds) cache _ (inr lost) (attempt_loop-Tries (suc k) ds cache))
      | inl stored ↦
          rw (answered, stored, attempt_loop)
            (inl (
              k,
              result,
              omega arith,
              omega arith,
              answered,
              stored,
              (λ j p q. absurd (omega arith)),
              refl,
            ))
    ]
  ]

  abbrev conclude : Tried → TrustResponse × ℕ × List CacheRow
  conclude t = elim t.verified [
    | some verified ↦ (verified, t.attempts, t.cache)
    | none ↦ (fallback subject t.cache, t.attempts, t.cache)
  ]

  concluded :
      (n : ℕ) (cache : List CacheRow) (t : Tried)
      → Tries env subject 0 n cache t
      → Resolves env subject n cache (conclude t)
  concluded n cache t (inl (i, result, from, below, answered, stored, failed, end)) = rw end (
      inl (
        i,
        result,
        omega arith,
        answered,
        stored,
        (λ j q. failed j (omega arith) q),
        refl,
        refl,
        refl,
        normalize_verified-IsVerified result subject,
      ))
  concluded n cache t (inr (failed, end)) = rw end (
      inr (
        (λ j q. failed j (omega arith) (omega arith)),
        omega arith,
        refl,
        refl,
        fallback-IsDegraded subject cache,
      ))

  -- A resolution makes attempts until one succeeds, that is the upstream answers and the cache
  -- takes the answer, and at most as many as there are delays. The first success is answered,
  -- verified, with a confidence of 0.8 to 1, and cached. If there is none, all attempts have been
  -- made, the cache is as it was, and the answer is the fallback, degraded and provisional, with a
  -- confidence of at most 0.6.
  pub resolve_trust_with_resilience-Resolves :
      (delays : List ℕ) (cache : List CacheRow)
      → Resolves env subject
          (length delays)
          cache
          (resolve_trust_with_resilience env subject delays cache)
  unfolding resolve_trust_with_resilience
  resolve_trust_with_resilience-Resolves delays cache =
      concluded (length delays) cache (attempt_loop env subject 0 delays cache)
        (attempt_loop-Tries 0 delays cache)
