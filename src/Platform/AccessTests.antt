-- ===== src/Platform/AccessTests.antt =====
-- API keys, rate limits and streams on concrete calls.
use infopunks_trust_layer_ag.Base.{◌≤◌, ◌≡◌, refl, none, some, List, [], ◌∷◌, arith}
use infopunks_trust_layer_ag.Platform.Registry.{returned, threw}
use infopunks_trust_layer_ag.Platform.Passports.{app_error}
use infopunks_trust_layer_ag.Platform.Access.{
  ApiKey, check_key, authenticate, unauthorized, resolve_rate_limit, cleanup_rate_limits, used_of,
  set_window, enforce_rate_limit, active_streams, set_streams, open_event_stream,
  close_event_stream,
}
use infopunks_trust_layer_ag.Platform.Quota.{Charge, admitted_cost, admitted_cost-le}

access_code : Unit {0}
unfolding check_key authenticate resolve_rate_limit cleanup_rate_limits used_of set_window
    enforce_rate_limit active_streams set_streams open_event_stream close_event_stream admitted_cost
access_code = tt

abbrev reader : ApiKey
reader = record {
  token = "t1";
  key_id = "k1";
  caller_id = "c1";
  scopes = "read" ∷ [];
  environment = "test";
  status = "active";
}

reads : authenticate (reader ∷ []) "test" (some "t1") none ≡ returned reader
unfolding access_code
reads = refl

writes_not :
    authenticate (reader ∷ []) "test" (some "t1") (some "write")
    ≡ threw (app_error "FORBIDDEN" "API key lacks the required scope." 403)
unfolding access_code
writes_not = refl

revoked_key :
    authenticate (record reader { status = "revoked" } ∷ []) "test" (some "t1") none
    ≡ threw unauthorized
unfolding access_code
revoked_key = refl

write_limit :
    resolve_rate_limit
      (record { bucket = "write"; cost = some 4; limit = some 600 } ∷ [])
      (record { bucket = "default"; cost = some 1; limit = some 1200 })
      (record { bucket = some "write"; cost = none; limit = some 10 })
    ≡ record { bucket = "write"; cost = 4; limit = 10 }
unfolding access_code
write_limit = refl

abbrev writing : Charge
writing = record {
  key_id = "k1";
  policy = record { bucket = "write"; cost = 4; limit = 10 };
  minute = 7;
}

abbrev writes : List Charge
writes = writing ∷ writing ∷ writing ∷ []

two_writes :
    admitted_cost "k1" "write" 7 writes (record { windows = []; last_cleanup_minute = none }) ≡ 8
unfolding access_code
two_writes = refl

one_stream :
    close_event_stream "k1" ((open_event_stream "k1" 1 (open_event_stream "k1" 1 []).1).1) ≡ []
unfolding access_code
one_stream = refl

admitted_cost-le_example :
    admitted_cost "k1" "write" 7 writes (record { windows = []; last_cleanup_minute = none }) ≤ 10
admitted_cost-le_example =
    admitted_cost-le "k1" "write" 7 10 writes (omega arith, (omega arith, (omega arith, tt)))
      ((λ e. omega arith), ((λ e. omega arith), ((λ e. omega arith), tt)))
