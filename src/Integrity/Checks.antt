-- ===== src/Integrity/Checks.antt =====
-- What the checks of evaluateIntegrityLocked (internal/licensecore/server.go) are made of.
use license_guard.Base.{
  ℕ, String, List, [], ◌∷◌, Bool, true, false, ◌&&◌, not, Option, none, some, Dict, is_empty,
  one_of, to_lower, trim_space, equal_fold, if◌then◌else◌,
}
use license_guard.Types.{AppRelease, IntegrityRequest, Value, text}

pub record Check : Type 0 where
  pub holds : Bool
  pub line : ℕ
  pub points : ℕ
  pub denies : Bool
  pub actions : List String
  pub event_type : String
  pub severity : String
  pub action : String
  pub summary : String
  pub metadata : Option (Dict Value)

-- The arguments of evaluateIntegrityLocked.
pub record Client : Type 0 where
  pub app_id : String
  pub device_id : String
  pub license_id : String
  pub platform : String
  pub integrity : IntegrityRequest

-- releaseBusinessManifestSHA256
unfoldable pub release_business_manifest_sha256 : AppRelease → String
release_business_manifest_sha256 r =
    if not (is_empty (trim_space r.business_manifest_sha256))
    then trim_space r.business_manifest_sha256
    else trim_space r.resource_manifest_hash

-- dbEncryptionStatusFailed
unfoldable pub db_encryption_status_failed : String → Bool
db_encryption_status_failed status = one_of (to_lower (trim_space status)) (
    "failed" ∷ "error" ∷ "key_missing" ∷ "key_unavailable" ∷ "key_unreadable" ∷ "migration_failed"
    ∷ "plaintext" ∷ "plaintext_fallback" ∷ "disabled" ∷ [])

-- The `switch` over the business integrity status.
unfoldable pub business_integrity_failed : String → Bool
business_integrity_failed status =
    one_of (to_lower (trim_space status)) ("failed" ∷ "invalid" ∷ "tampered" ∷ [])

-- The expected text is set, and the client reports another, or none.
abbrev pub differs : String → String → Bool
differs expected actual = not (is_empty expected) && not (equal_fold expected actual)

-- Both texts are set, and differ.
abbrev pub both_differ : String → String → Bool
both_differ expected actual =
    not (is_empty expected) && not (is_empty actual) && not (equal_fold expected actual)

-- `input.Integrity.BusinessManifestSignatureValid != nil && !*input.Integrity.BusinessManifestSignatureValid`
abbrev pub is_false : Option Bool → Bool
is_false none = false
is_false (some b) = not b

abbrev pub is_not_empty : List String → Bool
is_not_empty [] = false
is_not_empty (x ∷ xs) = true

-- map[string]any{"expected": e, "actual": a, "release_id": id}
abbrev pub mismatch : String → String → String → Option (Dict Value)
mismatch expected actual release_id =
    some
      (("expected", text expected) ∷ ("actual", text actual) ∷ ("release_id", text release_id) ∷ [])

abbrev pub field_mismatch : String → String → String → String → Option (Dict Value)
field_mismatch name expected actual release_id = some (
    ("field", text name)
    ∷ ("expected", text expected)
    ∷ ("actual", text actual)
    ∷ ("release_id", text release_id)
    ∷ [])

abbrev pub version_metadata : Client → Option (Dict Value)
version_metadata c = some (("version", text c.integrity.app_version) ∷ [])
