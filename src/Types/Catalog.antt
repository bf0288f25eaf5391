-- ===== src/Types/Catalog.antt =====
-- What the administrators register (internal/licensecore/types.go): accounts, apps, releases, keys,
-- licenses, capability policies and settings.
use license_guard.Base.{String, Bool, List, Option, Dict, ℤ}
use license_guard.Types.Dynamic.{Time, Value}

pub record Admin : Type 0 where
  pub id : String
  pub account : String
  pub name : String
  pub password_hash : String
  pub status : String
  pub created_at : Time
  pub updated_at : Time

pub record App : Type 0 where
  pub id : String
  pub app_key : String
  pub name : String
  pub description : String
  pub owner_team : String
  pub status : String
  pub created_at : Time
  pub updated_at : Time

pub record AppRelease : Type 0 where
  pub id : String
  pub app_id : String
  pub platform : String
  pub version : String
  pub build_number : ℤ
  pub channel : String
  pub status : String
  pub signer_thumbprint : String
  pub main_binary_hash : String
  pub resource_manifest_hash : String
  pub business_manifest_sha256 : String
  pub protected_db_schema_hash : String
  pub protected_db_tables_hash : String
  pub assets_manifest_sha256 : String
  pub workflow_manifest_sha256 : String
  pub download_url : String
  pub package_sha256 : String
  pub mandatory : Bool
  pub min_supported_version : String
  pub rollout_percent : ℤ
  pub release_notes : String
  pub created_at : Time

pub record SdkKey : Type 0 where
  pub id : String
  pub app_id : String
  pub public_key : String
  pub secret_hash : String
  pub key_prefix : String
  pub status : String
  pub last_used_at : Option Time
  pub created_at : Time
  pub rotated_at : Option Time

pub record SdkKeyView : Type 0 where
  pub id : String
  pub app_id : String
  pub public_key : String
  pub key_prefix : String
  pub status : String
  pub last_used_at : Option Time
  pub created_at : Time
  pub rotated_at : Option Time

pub record License : Type 0 where
  pub id : String
  pub license_key_hash : String
  pub license_key_prefix : String
  pub app_id : String
  pub plan_name : String
  pub owner_type : String
  pub owner_ref : String
  pub max_devices : ℤ
  pub entitlements : List String
  pub expires_at : Time
  pub status : String
  pub created_at : Time
  pub updated_at : Time

pub record CapabilityPolicy : Type 0 where
  pub app_id : String
  pub capability : String
  pub required_entitlement : String
  pub mode : String
  pub message : String
  pub limits_json : Option (Dict Value)
  pub created_at : Time
  pub updated_at : Time

pub record SystemSettings : Type 0 where
  pub default_token_ttl_minutes : ℤ
  pub medium_risk_token_ttl_minutes : ℤ
  pub offline_grace_days : ℤ
  pub default_max_devices : ℤ
  pub default_license_days : ℤ
  pub audit_log_retention_days : ℤ
  pub mfa_required : Bool
  pub sensitive_action_confirm : Bool
  pub updated_at : Time
