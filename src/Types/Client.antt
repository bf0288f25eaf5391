-- ===== src/Types/Client.antt =====
-- What clients send and receive (internal/licensecore/types.go).
use license_guard.Base.{String, Bool, List, Option, Dict, ℤ}
use license_guard.Types.Dynamic.{Time, Value}

pub record Challenge : Type 0 where
  pub id : String
  pub nonce : String
  pub app_id : String
  pub install_id : String
  pub expires_at : Time
  pub created_at : Time

pub record DeviceInfo : Type 0 where
  pub install_id : String
  pub fingerprint : String
  pub os : String
  pub os_version : String
  pub machine_name_hash : String

pub record IntegrityRequest : Type 0 where
  pub app_version : String
  pub main_binary_hash : String
  pub signer_thumbprint : String
  pub business_manifest_sha256 : String
  pub business_manifest_signature_valid : Option Bool
  pub protected_db_schema_hash : String
  pub protected_db_tables_hash : String
  pub assets_manifest_sha256 : String
  pub workflow_manifest_sha256 : String
  pub business_integrity_status : String
  pub business_integrity_errors : List String
  pub db_encryption_status : String
  pub db_encryption_errors : List String
  pub debugger_detected : Bool
  pub suspicious_modules : List String
  pub vm_indicators : List String

pub record RiskResult : Type 0 where
  pub level : String
  pub score : ℤ
  pub actions : List String

pub record UpdateInfo : Type 0 where
  pub available : Bool
  pub required : Bool
  pub latest_version : String
  pub download_url : String
  pub package_sha256 : String
  pub release_notes : String

pub record CapabilityDecision : Type 0 where
  pub capability : String
  pub required_entitlement : String
  pub configured_mode : String
  pub effective_mode : String
  pub allowed : Bool
  pub reason : String
  pub message : String
  pub limits_json : Option (Dict Value)

pub record CapabilityPolicyBundle : Type 0 where
  pub app_id : String
  pub license_id : String
  pub device_id : String
  pub entitlements : List String
  pub decisions : List CapabilityDecision
  pub issued_at : ℤ
  pub expires_at : ℤ

pub record SignedCapabilityPolicyBundle : Type 0 where
  pub alg : String
  pub key_type : String
  pub bundle : CapabilityPolicyBundle
  pub signature : String

pub record VerifyResponse : Type 0 where
  pub allowed : Bool
  pub code : String
  pub message : String
  pub license_token : String
  pub expires_at : Option Time
  pub offline_grace_until : Option Time
  pub entitlements : List String
  pub capability_policy : Option SignedCapabilityPolicyBundle
  pub device_status : String
  pub risk : RiskResult
  pub update : Option UpdateInfo

pub record LicenseTokenClaims : Type 0 where
  pub iss : String
  pub app_id : String
  pub license_id : String
  pub device_id : String
  pub entitlements : List String
  pub issued_at : ℤ
  pub expires_at : ℤ
  pub offline_grace_until : ℤ
