-- ===== src/Settings.antt =====
-- The system settings of internal/licensecore/server.go: normalizeSystemSettings and what it reads.
pub mod Bounds
use license_guard.Base.{
  ℤ, pos, negsuc, ltb_ℤ, leb_ℤ, Bool, true, false, if◌then◌else◌, pos_part, neg_part,
}
use license_guard.Types.{SystemSettings, Time, is_zero}

-- clampInt
unfoldable pub clamp_int : ℤ → ℤ → ℤ → ℤ
clamp_int value min max = if ltb_ℤ value min then min else if ltb_ℤ max value then max else value

-- defaultSystemSettings
abbrev pub default_system_settings : Time → SystemSettings
default_system_settings now = record {
  default_token_ttl_minutes = pos 720;
  medium_risk_token_ttl_minutes = pos 30;
  offline_grace_days = pos 7;
  default_max_devices = pos 3;
  default_license_days = pos 365;
  audit_log_retention_days = pos 365;
  mfa_required = false;
  sensitive_action_confirm = false;
  updated_at = now;
}

-- `if value <= 0 { value = fallback }`
abbrev pub positive_or : ℤ → ℤ → ℤ
positive_or value fallback = if leb_ℤ value (pos 0) then fallback else value

-- The first half of normalizeSystemSettings: defaults for what is missing.
unfoldable pub fill_defaults : SystemSettings → Time → SystemSettings
fill_defaults settings now =
    let defaults = default_system_settings now in
    record {
      default_token_ttl_minutes =
          positive_or settings.default_token_ttl_minutes defaults.default_token_ttl_minutes;
      medium_risk_token_ttl_minutes =
          positive_or settings.medium_risk_token_ttl_minutes defaults.medium_risk_token_ttl_minutes;
      offline_grace_days =
          if ltb_ℤ settings.offline_grace_days (pos 0)
          then defaults.offline_grace_days
          else settings.offline_grace_days;
      default_max_devices = positive_or settings.default_max_devices defaults.default_max_devices;
      default_license_days =
          positive_or settings.default_license_days defaults.default_license_days;
      audit_log_retention_days =
          positive_or settings.audit_log_retention_days defaults.audit_log_retention_days;
      mfa_required = settings.mfa_required;
      sensitive_action_confirm = settings.sensitive_action_confirm;
      updated_at = if is_zero settings.updated_at then now else settings.updated_at;
    }

-- The second half: each number in its range.
unfoldable pub clamp_settings : SystemSettings → SystemSettings
unfolding clamp_int
clamp_settings settings =
    let ttl = clamp_int settings.default_token_ttl_minutes (pos 5) (pos 43200) in
    record {
      default_token_ttl_minutes = ttl;
      medium_risk_token_ttl_minutes = clamp_int settings.medium_risk_token_ttl_minutes (pos 5) ttl;
      offline_grace_days = clamp_int settings.offline_grace_days (pos 0) (pos 30);
      default_max_devices = clamp_int settings.default_max_devices (pos 1) (pos 1000);
      default_license_days = clamp_int settings.default_license_days (pos 1) (pos 3650);
      audit_log_retention_days = clamp_int settings.audit_log_retention_days (pos 7) (pos 3650);
      mfa_required = settings.mfa_required;
      sensitive_action_confirm = settings.sensitive_action_confirm;
      updated_at = settings.updated_at;
    }

-- normalizeSystemSettings
unfoldable pub normalize_system_settings : SystemSettings → Time → SystemSettings
unfolding fill_defaults clamp_settings
normalize_system_settings settings now = clamp_settings (fill_defaults settings now)
