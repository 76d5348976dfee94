-- ===== src/Platform/Quota.antt =====
-- What a key spends of a bucket in one minute.
use infopunks_trust_layer_ag.Base.{
  ℕ, ◌+◌, ◌≤◌, ◌≡◌, refl, String, Bool, true, ◌&&◌, none, List, [], ◌∷◌, ◌==◌, eq_iff, arith, eqb,
  leb, filter, All, if◌then◌else◌,
}
use infopunks_trust_layer_ag.Platform.Access.{
  RateLimit, Window, RateLimits, is_window, cleanup_rate_limits, used_of, set_window,
  enforce_rate_limit,
}

pub record Charge : Type 0 where
  pub key_id : String
  pub policy : RateLimit
  pub minute : ℕ

abbrev pub is_charged : String → String → ℕ → Charge → Bool
is_charged key bucket minute c =
    c.key_id == key && (c.policy.bucket == bucket && eqb c.minute minute)

-- The costs that are let through of a key, a bucket and a minute.
unfoldable pub admitted_cost : String → String → ℕ → List Charge → RateLimits → ℕ
admitted_cost key bucket minute [] s = 0
admitted_cost key bucket minute (c ∷ cs) s =
    let (admitted, s') = enforce_rate_limit c.key_id c.policy c.minute s in
    (if admitted && is_charged key bucket minute c then c.policy.cost else 0)
    + admitted_cost key bucket minute cs s'

used_of-filter :
    (key bucket : String) (minute current : ℕ) (ws : List Window)
    → current ≤ minute
    → used_of key bucket minute (filter (λ w. leb current (w.minute + 2)) ws)
      ≡ used_of key bucket minute ws
unfolding used_of
used_of-filter key bucket minute current [] h = refl
used_of-filter key bucket minute current (w ∷ ws) h =
    ground (arith, h, used_of-filter key bucket minute current ws h)

used_of-set_window :
    (key bucket : String) (minute : ℕ) (w : Window) (ws : List Window)
    → used_of key bucket minute (set_window w ws)
      ≡ (if is_window key bucket minute w then w.used else used_of key bucket minute ws)
unfolding used_of set_window
used_of-set_window key bucket minute w [] = ground arith
used_of-set_window key bucket minute w (x ∷ xs) = ground (
  arith,
  used_of-set_window key bucket minute w xs,
  eq_iff x.key_id w.key_id,
  eq_iff x.bucket w.bucket,
  eq_iff x.key_id key,
  eq_iff w.key_id key,
  eq_iff x.bucket bucket,
  eq_iff w.bucket bucket,
)

used_of-cleanup :
    (key bucket : String) (minute current : ℕ) (s : RateLimits)
    → current ≤ minute
    → used_of key bucket minute (cleanup_rate_limits current s).windows
      ≡ used_of key bucket minute s.windows
unfolding cleanup_rate_limits
used_of-cleanup key bucket minute current s h =
    ground (arith, used_of-filter key bucket minute current s.windows h)

abbrev charged_window : Charge → List Window → Window
charged_window c ws = record {
  key_id = c.key_id;
  bucket = c.policy.bucket;
  minute = c.minute;
  used = used_of c.key_id c.policy.bucket c.minute ws + c.policy.cost;
}

used_of-charged :
    (key bucket : String) (minute : ℕ) (c : Charge) (ws : List Window)
    → is_charged key bucket minute c ≡ true
    → used_of c.key_id c.policy.bucket c.minute ws ≡ used_of key bucket minute ws
used_of-charged key bucket minute c ws h =
    let same_key : c.key_id ≡ key = (eq_iff c.key_id key).0 (ground arith) in
    let same_bucket : c.policy.bucket ≡ bucket = (eq_iff c.policy.bucket bucket).0 (ground arith) in
    let same_minute : c.minute ≡ minute = ground arith in cc (same_key, same_bucket, same_minute)

-- One call adds what it is charged to its window, and stays within its limit.
used_of-enforce :
    (key bucket : String) (minute : ℕ) (c : Charge) (s : RateLimits)
    → c.minute ≤ minute
    → let (admitted, s') = enforce_rate_limit c.key_id c.policy c.minute s in
      (used_of key bucket minute s'.windows
        ≡ used_of key bucket minute s.windows
          + (if admitted && is_charged key bucket minute c then c.policy.cost else 0))
      × ((admitted && is_charged key bucket minute c) ≡ true
          → used_of key bucket minute s.windows + c.policy.cost ≤ c.policy.limit)
unfolding enforce_rate_limit
used_of-enforce key bucket minute c s h =
    let cleaned = (cleanup_rate_limits c.minute s).windows in
    ground (
      arith,
      used_of-cleanup key bucket minute c.minute s h,
      used_of-charged key bucket minute c cleaned,
      used_of-set_window key bucket minute (charged_window c cleaned) cleaned,
    )

admitted_cost-used_of :
    (key bucket : String) (minute limit : ℕ) (cs : List Charge) (s : RateLimits)
    → All (λ c. c.minute ≤ minute) cs
    → All (λ c. is_charged key bucket minute c ≡ true → c.policy.limit ≤ limit) cs
    → used_of key bucket minute s.windows ≤ limit
    → admitted_cost key bucket minute cs s + used_of key bucket minute s.windows ≤ limit
unfolding admitted_cost
admitted_cost-used_of key bucket minute limit [] s m l h = omega (arith, h)
admitted_cost-used_of key bucket minute limit (c ∷ cs) s m l h =
    let e = used_of-enforce key bucket minute c s m.0 in
    let s' = (enforce_rate_limit c.key_id c.policy c.minute s).1 in
    let k : used_of key bucket minute s'.windows ≤ limit = ground (arith, e, h, l.0) in
    omega (arith, e.0, admitted_cost-used_of key bucket minute limit cs s' m.1 l.1 k)

-- From no windows, the costs that enforceRateLimit lets through for one API key, bucket and minute
-- add up to at most the limit, through every sequence of calls of all keys and buckets and with the
-- deletions in between, if no call of the sequence is for a later minute and the limits of the
-- calls of this window are at most that one.
pub admitted_cost-le :
    (key bucket : String) (minute limit : ℕ) (cs : List Charge)
    → All (λ c. c.minute ≤ minute) cs
    → All (λ c. is_charged key bucket minute c ≡ true → c.policy.limit ≤ limit) cs
    → admitted_cost key bucket minute cs (record { windows = []; last_cleanup_minute = none })
      ≤ limit
unfolding used_of
admitted_cost-le key bucket minute limit cs m l = omega (
  arith,
  admitted_cost-used_of key bucket minute limit cs
      (record { windows = []; last_cleanup_minute = none }) m l (omega arith),
)
