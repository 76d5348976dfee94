-- ===== src/Identity/Tests.antt =====
-- Concrete agents and answers of the API, and the theorems about them applied to these.
use infopunks_trust_layer_ag.Base.{
  ◌≡◌, refl, String, true, false, none, some, List, [], ◌∷◌, to_lower_case,
}
use infopunks_trust_layer_ag.Base.Json.{text}
use infopunks_trust_layer_ag.Storage.Locks.{
  LockRow, get_lock, upsert_lock, acquire_lock, release_lock,
}
use infopunks_trust_layer_ag.Identity.Mapper.{
  Agent, AgentIdentity, is_canonical, replace_runs, drop_underscores, drop_last_underscores, slice,
  text_length, sanitize, has_control, is_safe_external_id, external_id_of, canonical_of,
  normalize_identity, get_by_external_id, upsert_mapping, lookup_internal_subject, subject_id_of,
  ensure_internal_subject,
}
use infopunks_trust_layer_ag.Identity.Subject.{
  found, failed, created, create_failed, Answers, SubjectConfig, TargetOptions, resolved,
  create_and_look, bootstrap_of, bootstrap_subject, bootstrap_locked, should_auto_bootstrap,
  is_refused, resolve_target, resolve_caller, unknown_subject, refused,
}
use infopunks_trust_layer_ag.Identity.Resolution.{
  Released, resolve_target-Released, Explained, resolve_target-Explained,
}
use infopunks_trust_layer_ag.Identity.Stable.{ensure_all, ensure_internal_subject-ensure_all}

identity_code : Unit {0}
unfolding is_canonical replace_runs drop_underscores drop_last_underscores slice text_length
    sanitize has_control is_safe_external_id external_id_of canonical_of normalize_identity
    get_by_external_id upsert_mapping lookup_internal_subject subject_id_of ensure_internal_subject
    ensure_all to_lower_case
identity_code = tt

subject_code : Unit {0}
unfolding create_and_look bootstrap_of bootstrap_subject bootstrap_locked should_auto_bootstrap
    is_refused resolve_target resolve_caller unknown_subject get_lock upsert_lock acquire_lock
    release_lock
subject_code = tt

abbrev digest : String → String
digest s = "0123456789abcdef"

abbrev agent : Agent
agent = record {
  agent_id = some "__Agent  No. 7!";
  agent_id_camel = none;
  id = none;
  did = none;
  wallet = some "0xabc";
  address = none;
  label = none;
  name = some "Seven";
}

abbrev seven : AgentIdentity
seven = record {
  external_id = "__Agent  No. 7!";
  canonical = "agent_no_7";
  did = "did:agentic:agent_no_7";
  wallet = some "0xabc";
  label = some "Seven";
}

seven_normalized : normalize_identity digest agent ≡ some seven
unfolding identity_code
seven_normalized = refl

first_subject : (ensure_internal_subject digest "test" seven 5 []).0 ≡ "agent_agent_no_7_01234567"
unfolding identity_code
first_subject = refl

control_character : is_safe_external_id "a\n" ≡ false
unfolding identity_code
control_character = refl

ensure_internal_subject-ensure_all_example :
    ensure_internal_subject digest "test" seven 9 (
      ensure_all digest "test"
        ((seven, 7) ∷ [])
        (ensure_internal_subject digest "test" seven 5 []).1)
    ≡ (
      (ensure_internal_subject digest "test" seven 5 []).0,
      ensure_all digest "test"
          ((seven, 7) ∷ [])
          (ensure_internal_subject digest "test" seven 5 []).1,
    )
ensure_internal_subject-ensure_all_example =
    ensure_internal_subject-ensure_all digest "test" seven seven 5 9 ((seven, 7) ∷ []) [] refl

abbrev config : SubjectConfig
config = record {
  target_lookup_only = true;
  auto_bootstrap_unknown_subjects = true;
  auto_bootstrap_trust_score = none;
  auto_bootstrap_trust_tier = none;
}

abbrev options : TargetOptions
options = record { create_if_missing = false; auto_bootstrap_if_missing = true }

-- The subject is unknown, another worker creates it first, and then it is there.
abbrev raced : Answers
raced = record {
  first = failed (some 404);
  after_wait = failed (some 404);
  before_create = failed (some 404);
  creation = create_failed (some 409);
  after_create = found (text "passport");
}

abbrev held : List LockRow
held =
    record { lock_name = "auto-bootstrap:s1"; owner_id = "w2"; expires_at = 900; updated_at = 0 }
    ∷ []

lock_returned : (resolve_target config "s1" options "w1" 500 (λ t. t) raced (some [])).1 ≡ some []
unfolding subject_code
lock_returned = refl

conflict_counts_as_created :
    (resolve_target config "s1" options "w1" 500 (λ t. t) raced (some held)).0.resolution
    ≡ resolved record {
      subject_id = "s1";
      passport = text "passport";
      created = true;
      bootstrap = some record { trust_score = 20; trust_tier = "unverified" };
    }
unfolding subject_code
conflict_counts_as_created = refl

unknown_target :
    (resolve_target config "s1"
      (record options { auto_bootstrap_if_missing = false })
      "w1"
      500
      (λ t. t)
      raced
      none).0.resolution
    ≡ refused (unknown_subject "Target subject is not registered.")
unfolding subject_code
unknown_target = refl

caller_registers :
    (resolve_caller false (some "s1") (record raced { creation = created })).resolution
    ≡ resolved
        record { subject_id = "s1"; passport = text "passport"; created = true; bootstrap = none }
unfolding subject_code
caller_registers = refl

resolve_target-Released_example :
    Released config "s1" options "w1" 500
      (λ t. t)
      raced
      (some held)
      (resolve_target config "s1" options "w1" 500 (λ t. t) raced (some held)).1
resolve_target-Released_example =
    resolve_target-Released config "s1" options "w1" 500 (λ t. t) raced (some held)

resolve_target-Explained_example :
    Explained config "s1" options "w1" 500
      (λ t. t)
      raced
      (resolve_target config "s1" options "w1" 500 (λ t. t) raced (some held)).0
resolve_target-Explained_example =
    resolve_target-Explained config "s1" options "w1" 500 (λ t. t) raced (some held)
