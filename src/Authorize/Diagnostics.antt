-- ===== src/Authorize/Diagnostics.antt =====
-- `mergeBazaarExtensionDiagnostics` of bazaar-extension-diagnostics.mjs, and what
-- `buildBazaarExtensionDiagnostics` gives without a header.
use infopunks_trust_layer_ag.Base.{
  String, not, ◌&&◌, Option, none, some, [], ◌∷◌, ◌==◌, truthy, or_else, get_or_else, if◌then◌else◌,
}
use infopunks_trust_layer_ag.Base.Json.{Json, null, text}
use infopunks_trust_layer_ag.Storage.Tables.{Metadata}
use infopunks_trust_layer_ag.Authorize.Payment.{given}

pub record Diagnostics : Type 0 where
  pub status : Option String
  pub reason : Option String
  pub raw : Option String

abbrev missing_reason : String
missing_reason = "EXTENSION-RESPONSES header not present on CDP verify/settle response"

abbrev pub missing : Diagnostics
missing = record { status = some "missing"; reason = some missing_reason; raw = none }

-- `{}`, which stands in for null.
abbrev pub no_diagnostics : Diagnostics
no_diagnostics = record { status = none; reason = none; raw = none }

abbrev pub nullable : Option String → Json
nullable none = null
nullable (some s) = text s

unfoldable pub merge_bazaar_extension_diagnostics : Diagnostics → Diagnostics → Metadata
merge_bazaar_extension_diagnostics first second =
    let primary_status = get_or_else (given first.status) "missing" in
    let secondary_status = get_or_else (given second.status) "missing" in
    let status = if not (secondary_status == "missing") then secondary_status else primary_status in
    let is_second = status == secondary_status in
    let reason =
      if is_second
      then or_else second.reason first.reason
      else or_else first.reason second.reason in
    let raw = if is_second then or_else second.raw first.raw else or_else first.raw second.raw in
    ("bazaar_extension_status", text status)
    ∷ (
      "bazaar_extension_reason",
      if status == "missing" && not (truthy reason) then text missing_reason else nullable reason,
    )
    ∷ ("bazaar_extension_raw", nullable raw)
    ∷ ("bazaar_verify_extension_status", text (get_or_else first.status "missing"))
    ∷ ("bazaar_verify_extension_reason", nullable first.reason)
    ∷ ("bazaar_verify_extension_raw", nullable first.raw)
    ∷ ("bazaar_settle_extension_status", text (get_or_else second.status "missing"))
    ∷ ("bazaar_settle_extension_reason", nullable second.reason)
    ∷ ("bazaar_settle_extension_raw", nullable second.raw)
    ∷ []
