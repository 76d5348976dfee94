-- ===== src/Resilience/Fallback.antt =====
-- The fallback answers what was last verified.
use infopunks_trust_layer_ag.Base.{
  ℕ, ◌<◌, ◌≡◌, refl, sym, ap, ◌∙◌, inl, inr, String, true, false, some, List, eq_iff, is_empty,
  text_of, length,
}
use infopunks_trust_layer_ag.Resilience.Cache.{
  TrustResponse, CacheRow, get_cached_trust, get_cached_trust-set_cached_trust,
}
use infopunks_trust_layer_ag.Resilience.Upstream.{
  normalize_degraded_from_cache, Upstream, fallback, resolve_trust_with_resilience,
}
use infopunks_trust_layer_ag.Resilience.Outcome.{
  Fails, Resolves, IsDegraded, resolve_trust_with_resilience-Resolves,
}

not_both : (r : TrustResponse) → IsDegraded r → r.mode ≡ some "verified" → ⊥
not_both r (degraded, _, _) verified =
    let e : ◌≡◌ {A = String} "verified" "degraded" = ap text_of (sym verified ∙ degraded) in
    cc ((eq_iff "verified" "degraded").1 e)

succeeds :
    (env : Upstream) (i : ℕ) (result : TrustResponse)
    → env.answers i ≡ some result
    → env.stores i ≡ true
    → Fails env i
    → ⊥
succeeds env i result answered stored (inl silent) = cc (answered, silent)
succeeds env i result answered stored (inr lost) = cc (stored, lost)

fallback-cached :
    (subject : String) (cached : TrustResponse) (cache : List CacheRow)
    → get_cached_trust subject cache ≡ some cached
    → fallback subject cache ≡ normalize_degraded_from_cache cached "CACHED_TRUST_FALLBACK" subject
unfolding fallback
fallback-cached subject cached cache held = rw (held, fallback)

-- After a resolution of a subject with a nonempty name has been answered as verified, a next one
-- for it all of whose attempts fail is answered with that same answer, degraded.
pub resolve_trust_with_resilience-cached :
    (env env' : Upstream) (subject : String) (delays delays' : List ℕ) (cache : List CacheRow)
    → is_empty subject ≡ false
    → (resolve_trust_with_resilience env subject delays cache).0.mode ≡ some "verified"
    → ((j : ℕ) → j < length delays' → Fails env' j)
    → (resolve_trust_with_resilience env' subject delays'
        (resolve_trust_with_resilience env subject delays cache).2).0
      ≡ normalize_degraded_from_cache
          (resolve_trust_with_resilience env subject delays cache).0
          "CACHED_TRUST_FALLBACK"
          subject
resolve_trust_with_resilience-cached env env' subject delays delays' cache named verified failing =
    second (resolve_trust_with_resilience-Resolves env' subject delays' first.2)
  where
    first : TrustResponse × ℕ × List CacheRow
    first = resolve_trust_with_resilience env subject delays cache

    held : get_cached_trust subject first.2 ≡ some first.0
    held = from (resolve_trust_with_resilience-Resolves env subject delays cache)
      where
        from :
            Resolves env subject (length delays) cache first
            → get_cached_trust subject first.2 ≡ some first.0
        from (inl (i, result, _, _, _, _, _, _, stored, _)) = rw stored (
            get_cached_trust-set_cached_trust subject subject first.0 (env.clock i) cache named
            ∙ rw ((eq_iff subject subject).1 refl) refl)
        from (inr (_, _, _, _, degraded)) = absurd (not_both first.0 degraded verified)

    second :
        Resolves env' subject
          (length delays')
          first.2
          (resolve_trust_with_resilience env' subject delays' first.2)
        → (resolve_trust_with_resilience env' subject delays' first.2).0
          ≡ normalize_degraded_from_cache first.0 "CACHED_TRUST_FALLBACK" subject
    second (inl (i, result, below, answered, stored, _, _, _, _, _)) =
        absurd (succeeds env' i result answered stored (failing i below))
    second (inr (_, _, response, _, _)) = response ∙ fallback-cached subject first.0 first.2 held
