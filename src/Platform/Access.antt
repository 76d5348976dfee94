-- ===== src/Platform/Access.antt =====
-- `authenticate`, `resolveRateLimit`, `cleanupRateLimits`, `enforceRateLimit` and `openEventStream` of
-- platform.mjs. The names of buckets hold no colon, so that the text of a key of `rateLimits` stands
-- for its three parts. A Map is a list of its entries.
use infopunks_trust_layer_ag.Base.{
  ℕ, suc, ◌+◌, ◌-◌, String, Bool, true, false, not, ◌&&◌, Option, none, some, List, [], ◌∷◌, ◌==◌,
  eqb, leb, ltb, any, filter, find_row, is_empty, get_or_else, or_else, if◌then◌else◌,
}
use infopunks_trust_layer_ag.Platform.Registry.{AppError, Attempt, returned, threw}
use infopunks_trust_layer_ag.Platform.Passports.{app_error}

pub record ApiKey : Type 0 where
  pub token : String
  pub key_id : String
  pub caller_id : String
  pub scopes : List String
  pub environment : String
  pub status : String

abbrev pub unauthorized : AppError
unauthorized = app_error "UNAUTHORIZED" "Missing or invalid API key." 401

abbrev pub is_token : String → ApiKey → Bool
is_token token k = k.token == token

-- The tests on the key of a token, in their order. A scope that is the empty text is not asked for.
unfoldable pub check_key : String → String → ApiKey → Attempt ApiKey
check_key environment required_scope k =
    if not (k.status == "active")
    then threw unauthorized
    else if not (k.environment == environment)
    then threw (
        app_error "FORBIDDEN"
          "API key environment does not match the current control plane environment." 403)
    else if not (is_empty required_scope) && not (any (λ s. s == required_scope) k.scopes)
    then threw (app_error "FORBIDDEN" "API key lacks the required scope." 403)
    else returned k

unfoldable pub authenticate : List ApiKey → String → Option String → Option String → Attempt ApiKey
authenticate keys environment token required_scope = elim token [
  | none ↦ threw unauthorized
  | some t ↦ if is_empty t then threw unauthorized else elim (find_row (is_token t) keys) [
    | none ↦ threw unauthorized
    | some k ↦ check_key environment (get_or_else required_scope "read") k
  ]
]

pub record RouteRateLimit : Type 0 where
  pub bucket : Option String
  pub cost : Option ℕ
  pub limit : Option ℕ

pub record BucketConfig : Type 0 where
  pub bucket : String
  pub cost : Option ℕ
  pub limit : Option ℕ

pub record RateLimit : Type 0 where
  pub bucket : String
  pub cost : ℕ
  pub limit : ℕ

abbrev config_of : String → List BucketConfig → Option BucketConfig
config_of bucket configs = find_row (λ c. c.bucket == bucket) configs

-- A bucket without a configuration has that of the default bucket, which is always there.
unfoldable pub resolve_rate_limit : List BucketConfig → BucketConfig → RouteRateLimit → RateLimit
resolve_rate_limit configs default route =
    let bucket = get_or_else route.bucket "default" in
    let config = get_or_else (config_of bucket configs) default in
    record {
      bucket = bucket;
      cost = get_or_else (or_else route.cost config.cost) 1;
      limit = get_or_else (or_else route.limit config.limit) 600;
    }

pub record Window : Type 0 where
  pub key_id : String
  pub bucket : String
  pub minute : ℕ
  pub used : ℕ

pub record RateLimits : Type 0 where
  pub windows : List Window
  pub last_cleanup_minute : Option ℕ

abbrev pub is_window : String → String → ℕ → Window → Bool
is_window key bucket minute w = w.key_id == key && (w.bucket == bucket && eqb w.minute minute)

abbrev same_minute : Option ℕ → ℕ → Bool
same_minute none minute = false
same_minute (some m) minute = eqb m minute

-- Once in a minute, the windows that lie more than two minutes back are deleted.
unfoldable pub cleanup_rate_limits : ℕ → RateLimits → RateLimits
cleanup_rate_limits minute s = if same_minute s.last_cleanup_minute minute then s else record {
  windows = filter (λ w. leb minute (w.minute + 2)) s.windows;
  last_cleanup_minute = some minute;
}

unfoldable pub used_of : String → String → ℕ → List Window → ℕ
used_of key bucket minute windows = elim (find_row (is_window key bucket minute) windows) [
  | none ↦ 0
  | some w ↦ w.used
]

unfoldable pub set_window : Window → List Window → List Window
set_window w [] = w ∷ []
set_window w (x ∷ xs) =
    let rest = set_window w xs in
    if is_window w.key_id w.bucket w.minute x then w ∷ xs else x ∷ rest

unfoldable pub enforce_rate_limit : String → RateLimit → ℕ → RateLimits → Bool × RateLimits
enforce_rate_limit key policy minute s =
    let s' = cleanup_rate_limits minute s in
    let used = used_of key policy.bucket minute s'.windows in
    if ltb policy.limit (used + policy.cost) then (false, s') else (
      true,
      record s' {
        windows =
            set_window
              record {
                key_id = key;
                bucket = policy.bucket;
                minute = minute;
                used = used + policy.cost;
              }
              s'.windows;
      },
    )

-- The streams that are open by key.
abbrev pub Streams : Type 0
Streams = List (String × ℕ)

unfoldable pub active_streams : String → Streams → ℕ
active_streams key [] = 0
active_streams key ((k, n) ∷ rest) = if k == key then n else active_streams key rest

unfoldable pub set_streams : String → ℕ → Streams → Streams
set_streams key n [] = (key, n) ∷ []
set_streams key n ((k, m) ∷ rest) =
    let others = set_streams key n rest in if k == key then (key, n) ∷ rest else (k, m) ∷ others

unfoldable pub open_event_stream : String → ℕ → Streams → Attempt (Unit {0}) × Streams
open_event_stream key max_streams s =
    let active = active_streams key s in
    if leb max_streams active
    then (threw (app_error "RATE_LIMITED" "Too many concurrent event streams for API key." 429), s)
    else (returned tt, set_streams key (suc active) s)

-- The function that `openEventStream` returns.
unfoldable pub close_event_stream : String → Streams → Streams
close_event_stream key s =
    if leb (active_streams key s) 1
    then filter (λ e. not (e.0 == key)) s
    else set_streams key (active_streams key s - 1) s
