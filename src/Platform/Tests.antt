-- ===== src/Platform/Tests.antt =====
-- Webhooks, passports and evidence on concrete calls, and the theorems about them applied to these.
use infopunks_trust_layer_ag.Base.{
  ℕ, zero, suc, ◌≡◌, refl, inl, String, none, some, List, [], ◌∷◌, length,
}
use infopunks_trust_layer_ag.Base.Json.{null}
use infopunks_trust_layer_ag.Platform.Webhooks.{
  Webhook, CloudEvent, Rail, answered, unreachable, is_ok, webhook_matches, list_webhooks,
  retry_delay, should_retry, concluded_row, delivery_event, schedule_webhook_retry, jobs_after,
  deliver_webhook, dispatch_webhooks, take_job, Arrival, turn, turns,
}
use infopunks_trust_layer_ag.Platform.Registry.{
  AppError, threw, passport_created, Registry, emit_event, replayed, remember, idempotent,
}
use infopunks_trust_layer_ag.Platform.Passports.{
  NewPassport, NewKey, get_passport, usable, ensure_subject, is_subject_type, new_passport,
  insert_keys, passport_guard, constraint_error, register_passport, create_passport,
  set_passport_status, rotate_passport_key, suspended_error, app_error,
}
use infopunks_trust_layer_ag.Platform.Evidence.{
  NewEvidence, is_evidence_type, persist_evidence, accept_evidence, record_evidence,
}
use infopunks_trust_layer_ag.Platform.Calls.{
  PlatformCall, create, block, rotate, evidence, suspend, apply, apply_all,
}
use infopunks_trust_layer_ag.Platform.Replayed.{Again, create_passport-apply_all}
use infopunks_trust_layer_ag.Platform.Blocked.{ensure_subject-apply_all}
use infopunks_trust_layer_ag.Platform.Deliveries.{start, dispatched, Ends, turns-Reached}

webhook_code : Unit {0}
unfolding is_ok webhook_matches list_webhooks retry_delay should_retry concluded_row delivery_event
    schedule_webhook_retry jobs_after deliver_webhook dispatch_webhooks take_job turn turns
webhook_code = tt

abbrev hook : String → List String → Webhook
hook id types = record {
  webhook_id = id;
  url = "https://example.org";
  secret = "s";
  status = "active";
  event_types = types;
  subjects = [];
  max_attempts = 2;
}

abbrev updated : CloudEvent
updated = record {
  id = "e1";
  type = "trust.updated";
  event_type = "trust.updated";
  subject = "agent_1";
  subject_id = "agent_1";
}

abbrev hooks : List Webhook
hooks = hook "w1" [] ∷ hook "w2" ("other" ∷ []) ∷ hook "w3" ("trust.updated" ∷ []) ∷ []

abbrev ids : ℕ → String
ids zero = "d0"
ids (suc n) = "d1"

abbrev at_start : Rail
at_start = record { deliveries = []; jobs = []; events = [] }

abbrev two_deliveries : Rail
two_deliveries = dispatch_webhooks updated (list_webhooks hooks) ids 5 at_start

two_jobs : length two_deliveries.jobs ≡ 2
unfolding webhook_code
two_jobs = refl

abbrev reply : ℕ → Arrival
reply place = record { place = place; response = unreachable "refused"; now = 10; later = 11 }

-- The first receiver fails twice, and the second one answers in between.
abbrev schedule : List Arrival
schedule = reply 0 ∷ (record (reply 1) { response = answered 204 }) ∷ reply 0 ∷ []

abbrev rail_of : (s : Rail) → Rail
rail_of s = elim (turns 250 schedule s) [ none ↦ s | some s' ↦ s' ]

all_over : (rail_of two_deliveries).jobs ≡ []
unfolding webhook_code
all_over = refl

delays : (retry_delay 250 2 ≡ 500) × (retry_delay 250 9 ≡ 2000)
unfolding webhook_code
delays = (refl, refl)

turns-Reached_example : Ends (length schedule) two_deliveries (turns 250 schedule two_deliveries)
turns-Reached_example =
    turns-Reached 250 two_deliveries schedule (dispatched updated hooks ids 5 start)

registry_code : Unit {0}
unfolding emit_event replayed remember idempotent get_passport usable ensure_subject is_subject_type
    new_passport insert_keys passport_guard register_passport create_passport set_passport_status
    rotate_passport_key is_evidence_type persist_evidence accept_evidence record_evidence apply
    apply_all
registry_code = tt

abbrev no_rows : Registry
no_rows = record {
  passports = [];
  passport_keys = [];
  passport_capabilities = [];
  evidence_records = [];
  trust_events = [];
  idempotency_keys = [];
}

abbrev key : String → NewKey
key kid = record { kid = kid; alg = "EdDSA"; public_key = "base58:agent_1" }

abbrev passport : List NewKey → NewPassport
passport keys = record {
  subject_id = "agent_1";
  subject_type = "agent";
  did = some "did:key:agent_1";
  issuer_id = none;
  issuer_signature = none;
  public_keys = keys;
  capabilities = [];
}

abbrev registered : Registry
registered = (create_passport (passport (key "k1" ∷ [])) (some "once") "h1" "psp_1" 5 no_rows).1

abbrev revocation : NewEvidence
revocation = record {
  subject_id = "agent_1";
  event_type = "passport.revoked";
  fingerprint = "f1";
  details = null;
  created_at = none;
}

abbrev later_calls : List PlatformCall
later_calls =
    rotate "agent_1" (key "k2") none 6
    ∷ evidence revocation (some "ev") "h2" "ev_1" 7
    ∷ block "agent_1" suspend 8
    ∷ create (passport []) none "h3" "psp_2" 9
    ∷ []

-- Two keys with one kid break the unique index behind the passport's row, which stays: the request
-- fails, and so does every one after it.
half_registered :
    let (answer, s) =
      create_passport (passport (key "k1" ∷ key "k1" ∷ [])) (some "once") "h1" "psp_1" 5 no_rows in
    (answer ≡ threw constraint_error)
    × ((create_passport (passport (key "k1" ∷ [])) (some "again") "h2" "psp_2" 6 s).0
        ≡ threw (app_error "CONFLICTING_EVIDENCE" "DID already registered." 409))
unfolding registry_code
half_registered = (refl, refl)

-- A suspension takes the place of a revocation.
suspended_after_revocation :
    ensure_subject "agent_1" (apply_all later_calls registered) ≡ threw suspended_error
unfolding registry_code
suspended_after_revocation = refl

create_passport-apply_all_example :
    let s' = apply_all later_calls registered in
    let (answer, s'') = create_passport (passport []) (some "once") "h1" "psp_9" 99 s' in
    (s'' ≡ s') × Again "h1" "h1" (passport_created "psp_1" "agent_1" 5) answer
unfolding registry_code
create_passport-apply_all_example =
    create_passport-apply_all (passport (key "k1" ∷ [])) (passport []) (some "once") "h1" "h1"
      "psp_1" "psp_9" 5 99 later_calls no_rows (passport_created "psp_1" "agent_1" 5) refl refl

ensure_subject-apply_all_example :
    (e : AppError) × (ensure_subject "agent_1"
        (apply_all later_calls (set_passport_status "agent_1" "revoked" 6 registered).1)
      ≡ threw e)
    × (e.status_code ≡ 409)
unfolding registry_code
ensure_subject-apply_all_example =
    ensure_subject-apply_all "agent_1" later_calls
      (set_passport_status "agent_1" "revoked" 6 registered).1 (inl refl)
