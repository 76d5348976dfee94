-- ===== src/Identity/Subject.antt =====
-- `resolveCaller` and `resolveTarget` of subject-resolution.mjs. The answers of the API client are
-- arguments, in the order of the calls, and so are the writes of other workers to the locks while
-- this call waits.
use infopunks_trust_layer_ag.Base.{
  ℕ, String, Bool, true, false, not, ◌&&◌, ◌||◌, Option, none, some, List, ◌^^◌, eqb, is_empty,
  get_or_else, if◌then◌else◌,
}
use infopunks_trust_layer_ag.Base.Json.{Json}
use infopunks_trust_layer_ag.Storage.Locks.{LockRow, acquire_lock, release_lock}
use infopunks_trust_layer_ag.Authorize.Requests.{AdapterError}

-- `getPassport` answers with a passport, or throws an error that may have an HTTP status.
pub data Lookup : Type 0 where
  found : Json → Lookup
  failed : Option ℕ → Lookup

-- `createPassport` goes through or throws.
pub data Creation : Type 0 where
  created : Creation
  create_failed : Option ℕ → Creation

-- Every call that may be made: the first look-up, the two before a bootstrap, the creation, and the
-- look-up after it.
pub record Answers : Type 0 where
  pub first : Lookup
  pub after_wait : Lookup
  pub before_create : Lookup
  pub creation : Creation
  pub after_create : Lookup

pub record SubjectConfig : Type 0 where
  pub target_lookup_only : Bool
  pub auto_bootstrap_unknown_subjects : Bool
  pub auto_bootstrap_trust_score : Option ℕ
  pub auto_bootstrap_trust_tier : Option String

pub record TargetOptions : Type 0 where
  pub create_if_missing : Bool
  pub auto_bootstrap_if_missing : Bool

pub record Bootstrap : Type 0 where
  pub trust_score : ℕ
  pub trust_tier : String

-- What is asked of `createPassport`: the subject, the key of the request, and the bootstrap.
pub record Creating : Type 0 where
  pub subject_id : String
  pub idempotency_key : String
  pub bootstrap : Option Bootstrap

pub record Target : Type 0 where
  pub subject_id : String
  pub passport : Json
  pub created : Bool
  pub bootstrap : Option Bootstrap

pub data TargetResolution : Type 0 where
  no_subject : TargetResolution
  resolved : Target → TargetResolution
  -- An error of the adapter's own, and one of the API client that is passed on.
  refused : AdapterError → TargetResolution
  passed_on : Option ℕ → TargetResolution

-- The answer, and what was asked to be created.
pub record Resolved : Type 0 where
  pub resolution : TargetResolution
  pub creating : Option Creating

abbrev pub is_status : ℕ → Option ℕ → Bool
is_status code none = false
is_status code (some status) = eqb status code

unfoldable pub unknown_subject : String → AdapterError
unknown_subject message = record { code = "UNKNOWN_SUBJECT"; message = message; status = 404 }

abbrev without_creating : TargetResolution → Resolved
without_creating r = record { resolution = r; creating = none }

abbrev target : String → Json → Bool → Option Bootstrap → TargetResolution
target subject passport is_new bootstrap =
    resolved
      record { subject_id = subject; passport = passport; created = is_new; bootstrap = bootstrap }

-- `createPassport`, the errors that are let through, and the look-up after it.
unfoldable pub create_and_look : Creating → Bool → Creation → Lookup → Resolved
create_and_look c conflict_passes creation lookup = record {
  resolution = elim creation [
    | created ↦ looked_up
    | create_failed status ↦
        if conflict_passes && is_status 409 status then looked_up else passed_on status
  ];
  creating = some c;
}
  where
    looked_up : TargetResolution
    looked_up = elim lookup [
      | found passport ↦ target c.subject_id passport true c.bootstrap
      | failed status ↦ passed_on status
    ]

unfoldable pub bootstrap_of : SubjectConfig → Bootstrap
bootstrap_of config = record {
  trust_score = get_or_else config.auto_bootstrap_trust_score 20;
  trust_tier = get_or_else config.auto_bootstrap_trust_tier "unverified";
}

abbrev pub bootstrap_creating : SubjectConfig → String → Creating
bootstrap_creating config subject = record {
  subject_id = subject;
  idempotency_key = "auto-bootstrap-" ^^ subject;
  bootstrap = some (bootstrap_of config);
}

-- The body of the `try`, given whether the lock is to be waited for.
unfoldable pub bootstrap_subject : SubjectConfig → String → Bool → Answers → Resolved
bootstrap_subject config subject waits a = elim (if waits then a.after_wait else failed none) [
  | found passport ↦ without_creating (target subject passport false none)
  | failed _ ↦ elim a.before_create [
    | found passport ↦ without_creating (target subject passport false none)
    | failed _ ↦ create_and_look (bootstrap_creating config subject) true a.creation a.after_create
  ]
]

abbrev pub lock_name_of : String → String
lock_name_of subject = "auto-bootstrap:" ^^ subject

-- With a store that has locks, its table, and none without. The lock that was acquired is released
-- on every way out.
unfoldable pub bootstrap_locked :
    SubjectConfig
    → String
    → String
    → ℕ
    → (List LockRow → List LockRow)
    → Answers
    → Option (List LockRow)
    → Resolved × Option (List LockRow)
bootstrap_locked config subject owner now others a none =
    (bootstrap_subject config subject false a, none)
bootstrap_locked config subject owner now others a (some locks) =
    let (acquired, locks') = acquire_lock (lock_name_of subject) owner 10 now locks in
    (
      bootstrap_subject config subject (not acquired) a,
      some (
          if acquired
          then release_lock (lock_name_of subject) owner (others locks')
          else others locks'),
    )

unfoldable pub should_auto_bootstrap : SubjectConfig → TargetOptions → Bool
should_auto_bootstrap config o =
    o.auto_bootstrap_if_missing && config.auto_bootstrap_unknown_subjects

unfoldable pub is_refused : SubjectConfig → TargetOptions → Bool
is_refused config o =
    not (should_auto_bootstrap config o) && (not o.create_if_missing || config.target_lookup_only)

unfoldable pub resolve_target :
    SubjectConfig
    → String
    → TargetOptions
    → String
    → ℕ
    → (List LockRow → List LockRow)
    → Answers
    → Option (List LockRow)
    → Resolved × Option (List LockRow)
resolve_target config subject o owner now others a locks =
    if is_empty subject then (without_creating no_subject, locks) else elim a.first [
      | found passport ↦ (without_creating (target subject passport false none), locks)
      | failed status ↦
          if not (is_status 404 status)
          then (without_creating (passed_on status), locks)
          else if is_refused config o
          then (
            without_creating (refused (unknown_subject "Target subject is not registered.")),
            locks,
          )
          else if should_auto_bootstrap config o
          then bootstrap_locked config subject owner now others a locks
          else (
            create_and_look
                record {
                  subject_id = subject;
                  idempotency_key = "target-passport-" ^^ subject;
                  bootstrap = none;
                }
                false a.creation a.after_create,
            locks,
          )
    ]

-- The subject is that of the caller's identity, which `PassportMapper` gives; it is `none` if there
-- is no identity.
unfoldable pub resolve_caller : Bool → Option String → Answers → Resolved
resolve_caller lookup_only none a = without_creating (
    refused
      record { code = "PASSPORT_REQUIRED"; message = "Caller identity is required."; status = 400 })
resolve_caller lookup_only (some subject) a = elim a.first [
  | found passport ↦ without_creating (target subject passport false none)
  | failed status ↦
      if not (is_status 404 status)
      then without_creating (passed_on status)
      else if lookup_only
      then without_creating (refused (unknown_subject "No Passport exists for caller identity."))
      else create_and_look
          record {
            subject_id = subject;
            idempotency_key = "agentic-passport-" ^^ subject;
            bootstrap = none;
          }
          false a.creation a.after_create
]
