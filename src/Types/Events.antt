-- ===== src/Types/Events.antt =====
-- What the clients leave behind (internal/licensecore/types.go), and `Data`, all that is stored.
use license_guard.Base.{String, Bool, List, Option, Dict, ℤ}
use license_guard.Types.Dynamic.{Time, Value}
use license_guard.Types.Catalog.{
  Admin, App, AppRelease, SdkKey, License, CapabilityPolicy, SystemSettings,
}

pub record Device : Type 0 where
  pub id : String
  pub device_fingerprint_hash : String
  pub install_id_hash : String
  pub platform : String
  pub os_version : String
  pub machine_name_hash : String
  pub risk_score : ℤ
  pub status : String
  pub first_seen_at : Time
  pub last_seen_at : Time

pub record Activation : Type 0 where
  pub id : String
  pub license_id : String
  pub device_id : String
  pub app_id : String
  pub activation_status : String
  pub activated_at : Time
  pub last_verified_at : Time
  pub deactivated_at : Option Time

pub record IntegrityReport : Type 0 where
  pub id : String
  pub app_id : String
  pub device_id : String
  pub release_id : String
  pub verify_session_id : String
  pub platform : String
  pub app_version : String
  pub main_binary_hash : String
  pub signer_thumbprint : String
  pub business_manifest_sha256 : String
  pub business_manifest_signature_valid : Option Bool
  pub protected_db_schema_hash : String
  pub protected_db_tables_hash : String
  pub assets_manifest_sha256 : String
  pub workflow_manifest_sha256 : String
  pub business_integrity_status : String
  pub business_integrity_errors : List String
  pub db_encryption_status : String
  pub db_encryption_errors : List String
  pub debugger_detected : Bool
  pub suspicious_modules : List String
  pub vm_indicators : List String
  pub created_at : Time

pub record RiskEvent : Type 0 where
  pub id : String
  pub app_id : String
  pub device_id : String
  pub license_id : String
  pub event_type : String
  pub severity : String
  pub action : String
  pub summary : String
  pub metadata : Option (Dict Value)
  pub created_at : Time
  pub resolved_at : Option Time

pub record AuditLog : Type 0 where
  pub id : String
  pub admin_id : String
  pub action : String
  pub target_type : String
  pub target_id : String
  pub ip : String
  pub user_agent : String
  pub metadata : Option (Dict Value)
  pub created_at : Time

pub record Data : Type 0 where
  pub admins : List Admin
  pub apps : List App
  pub releases : List AppRelease
  pub sdk_keys : List SdkKey
  pub licenses : List License
  pub capability_policies : List CapabilityPolicy
  pub devices : List Device
  pub activations : List Activation
  pub integrity_reports : List IntegrityReport
  pub risk_events : List RiskEvent
  pub audit_logs : List AuditLog
  pub settings : SystemSettings
