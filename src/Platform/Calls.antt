-- ===== src/Platform/Calls.antt =====
-- Histories of the calls that write passports and evidence.
use infopunks_trust_layer_ag.Base.{ℕ, String, Option, List, [], ◌∷◌}
use infopunks_trust_layer_ag.Platform.Registry.{Registry}
use infopunks_trust_layer_ag.Platform.Passports.{
  NewPassport, NewKey, create_passport, set_passport_status, rotate_passport_key,
}
use infopunks_trust_layer_ag.Platform.Evidence.{NewEvidence, record_evidence}

-- The statuses that `setPassportStatus` is there for.
pub data Block : Type 0 where
  revoke suspend : Block

abbrev pub status_of : Block → String
status_of revoke = "revoked"
status_of suspend = "suspended"

pub data PlatformCall : Type 0 where
  create : NewPassport → Option String → String → String → ℕ → PlatformCall
  block : String → Block → ℕ → PlatformCall
  rotate : String → NewKey → Option String → ℕ → PlatformCall
  evidence : NewEvidence → Option String → String → String → ℕ → PlatformCall

unfoldable pub apply : PlatformCall → Registry → Registry
apply (create input key hash id now) s = (create_passport input key hash id now s).1
apply (block subject b now) s = (set_passport_status subject (status_of b) now s).1
apply (rotate subject key reason now) s = (rotate_passport_key subject key reason now s).1
apply (evidence input key hash id now) s = (record_evidence input key hash id now s).1

unfoldable pub apply_all : List PlatformCall → Registry → Registry
apply_all [] s = s
apply_all (c ∷ cs) s = apply_all cs (apply c s)
