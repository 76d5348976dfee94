-- ===== src/Platform/Passports.antt =====
-- `getPassport`, `ensureSubject`, `createPassport`, `setPassportStatus` and `rotatePassportKey` of
-- platform.mjs. Fresh ids and the clock are arguments.
use infopunks_trust_layer_ag.Base.{
  ℕ, String, Bool, true, false, not, ◌&&◌, ◌||◌, Option, none, some, List, [], ◌∷◌, ◌==◌, any,
  find_row, update_rows, same_key, is_empty, is_some, truthy, get_or_else, or_else, if◌then◌else◌,
}
use infopunks_trust_layer_ag.Platform.Registry.{
  AppError, Attempt, returned, threw, PassportRow, KeyRow, CapabilityRow, Body, passport_created,
  Registry, emit_event, idempotent,
}

abbrev pub is_subject : String → PassportRow → Bool
is_subject subject p = p.subject_id == subject

unfoldable pub get_passport : String → Registry → Option PassportRow
get_passport subject s = find_row (is_subject subject) s.passports

abbrev pub app_error : String → String → ℕ → AppError
app_error code message status = record { code = code; message = message; status_code = status }

abbrev pub unknown_subject_error : AppError
unknown_subject_error = app_error "UNKNOWN_SUBJECT" "Unknown subject" 404

abbrev pub revoked_error : AppError
revoked_error = app_error "PASSPORT_REVOKED" "Passport revoked" 409

abbrev pub suspended_error : AppError
suspended_error = app_error "PASSPORT_SUSPENDED" "Passport suspended" 409

-- What `ensureSubject` makes of the passport that it finds.
unfoldable pub usable : Option PassportRow → Attempt PassportRow
usable none = threw unknown_subject_error
usable (some p) =
    if p.status == "revoked"
    then threw revoked_error
    else if p.status == "suspended"
    then threw suspended_error
    else returned p

unfoldable pub ensure_subject : String → Registry → Attempt PassportRow
ensure_subject subject s = usable (get_passport subject s)

pub record NewKey : Type 0 where
  pub kid : String
  pub alg : String
  pub public_key : String

pub record NewCapability : Type 0 where
  pub name : String
  pub version : String
  pub verified : Bool

pub record NewPassport : Type 0 where
  pub subject_id : String
  pub subject_type : String
  pub did : Option String
  pub issuer_id : Option String
  pub issuer_signature : Option String
  pub public_keys : List NewKey
  pub capabilities : List NewCapability

-- `SUBJECT_TYPES`
unfoldable pub is_subject_type : String → Bool
is_subject_type t =
    t == "agent" || (t == "validator" || (t == "operator_service" || t == "tool_adapter"))

unfoldable pub new_passport : NewPassport → String → ℕ → PassportRow
new_passport input passport_id now = record {
  passport_id = passport_id;
  subject_id = input.subject_id;
  subject_type = input.subject_type;
  did = input.did;
  status = "active";
  issuer_id = get_or_else input.issuer_id "org_infopunks";
  issuer_signature = get_or_else input.issuer_signature "ed25519:self-issued-v1";
  lifecycle = record {
    status_reason = none;
    last_status_change_at = now;
    last_key_rotation_at = none;
  };
  created_at = now;
  updated_at = now;
}

-- `UNIQUE(passport_id, kid)`
abbrev pub is_key : String → String → KeyRow → Bool
is_key passport_id kid k = k.passport_id == passport_id && k.kid == kid

abbrev new_key : String → NewKey → KeyRow
new_key passport_id k = record {
  passport_id = passport_id;
  kid = k.kid;
  alg = k.alg;
  public_key = k.public_key;
}

-- Whether all keys went in: the first that breaks the index throws, and those before it stay.
unfoldable pub insert_keys : String → List NewKey → List KeyRow → Bool × List KeyRow
insert_keys passport_id [] rows = (true, rows)
insert_keys passport_id (k ∷ ks) rows =
    let rest = insert_keys passport_id ks (new_key passport_id k ∷ rows) in
    if any (is_key passport_id k.kid) rows then (false, rows) else rest

abbrev insert_capabilities : String → List NewCapability → List CapabilityRow → List CapabilityRow
insert_capabilities passport_id [] rows = rows
insert_capabilities passport_id (c ∷ cs) rows = insert_capabilities passport_id cs (
    record { passport_id = passport_id; name = c.name; version = c.version; verified = c.verified }
    ∷ rows)

unfoldable pub passport_guard : NewPassport → Registry → Option AppError
passport_guard input s =
    if is_empty input.subject_id || not (is_subject_type input.subject_type)
    then some (app_error "INVALID_REQUEST" "Invalid subject." 400)
    else if truthy input.did && any (λ p. same_key p.did input.did) s.passports
    then some (app_error "CONFLICTING_EVIDENCE" "DID already registered." 409)
    else if is_some (get_passport input.subject_id s)
    then some (app_error "CONFLICTING_EVIDENCE" "Subject already registered." 409)
    else none

abbrev pub constraint_error : AppError
constraint_error = app_error "ERR_SQLITE_ERROR" "UNIQUE constraint failed" 500

-- The handler of `createPassport`; there is no transaction around it.
unfoldable pub register_passport : NewPassport → String → ℕ → Registry → Attempt Body × Registry
register_passport input passport_id now s = elim (passport_guard input s) [
  | some error ↦ (threw error, s)
  | none ↦
      let (inserted, keys) = insert_keys passport_id input.public_keys s.passport_keys in
      let s' = record s {
        passports = new_passport input passport_id now ∷ s.passports;
        passport_keys = keys;
      } in
      if not inserted then (threw constraint_error, s') else (
        returned (passport_created passport_id input.subject_id now),
        emit_event "passport.created" input.subject_id (record s' {
          passport_capabilities =
              insert_capabilities passport_id input.capabilities s.passport_capabilities;
        }),
      )
]

unfoldable pub create_passport :
    NewPassport → Option String → String → String → ℕ → Registry → Attempt Body × Registry
create_passport input key request_hash passport_id now s =
    idempotent "/v1/passports" key request_hash (register_passport input passport_id now) s

-- What a change of the status writes, given the row as it was read.
abbrev pub status_row : String → ℕ → PassportRow → PassportRow → PassportRow
status_row status now p r = record r {
  status = status;
  lifecycle = record p.lifecycle {
    status_reason =
        some (if status == "revoked" then "passport_revoked_event" else "operator_suspension");
    last_status_change_at = now;
  };
  updated_at = now;
}

unfoldable pub set_passport_status : String → String → ℕ → Registry → Attempt (Unit {0}) × Registry
set_passport_status subject status now s = elim (get_passport subject s) [
  | none ↦ (threw unknown_subject_error, s)
  | some p ↦ (
    returned tt,
    emit_event (if status == "revoked" then "passport.revoked" else "passport.suspended") subject
        (record s {
          passports = update_rows (is_subject subject) (status_row status now p) s.passports;
        }),
  )
]

abbrev pub has_passport_id : String → PassportRow → Bool
has_passport_id id r = r.passport_id == id

-- The lifecycle after a key was added.
abbrev pub rotated_row : Option String → ℕ → PassportRow → PassportRow → PassportRow
rotated_row reason now p r = record r {
  lifecycle = record p.lifecycle {
    last_key_rotation_at = some now;
    status_reason = or_else reason p.lifecycle.status_reason;
  };
  updated_at = now;
}

unfoldable pub rotate_passport_key :
    String → NewKey → Option String → ℕ → Registry → Attempt (Unit {0}) × Registry
rotate_passport_key subject key reason now s = elim (ensure_subject subject s) [
  | threw error ↦ (threw error, s)
  | returned p ↦
      if any (is_key p.passport_id key.kid) s.passport_keys
      then (threw (app_error "CONFLICTING_EVIDENCE" "Passport key kid already exists." 409), s)
      else (
        returned tt,
        emit_event "passport.key_rotated" subject (record s {
          passport_keys = new_key p.passport_id key ∷ s.passport_keys;
          passports =
              update_rows (has_passport_id p.passport_id) (rotated_row reason now p) s.passports;
        }),
      )
]
