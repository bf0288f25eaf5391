-- ===== src/Settings/Bounds.antt =====
-- The ranges that normalizeSystemSettings (internal/licensecore/server.go) gives the settings.
use license_guard.Base.{false, ℤ, pos, ◌≤ℤ◌, ltb_ℤ, ◌≡◌, ap, ◌∙◌, arith, if◌then◌else◌}
use license_guard.Types.{SystemSettings, Time, is_zero}
use license_guard.Settings.{
  clamp_int, positive_or, fill_defaults, clamp_settings, normalize_system_settings,
}

-- Each number of the settings is in its range, and risky clients get no longer tokens than others.
pub record InRange (s : SystemSettings) : Type 0 where
  pub ttl_low : pos 5 ≤ℤ s.default_token_ttl_minutes
  pub ttl_high : s.default_token_ttl_minutes ≤ℤ pos 43200
  pub medium_low : pos 5 ≤ℤ s.medium_risk_token_ttl_minutes
  pub medium_high : s.medium_risk_token_ttl_minutes ≤ℤ s.default_token_ttl_minutes
  pub grace_low : pos 0 ≤ℤ s.offline_grace_days
  pub grace_high : s.offline_grace_days ≤ℤ pos 30
  pub devices_low : pos 1 ≤ℤ s.default_max_devices
  pub devices_high : s.default_max_devices ≤ℤ pos 1000
  pub license_low : pos 1 ≤ℤ s.default_license_days
  pub license_high : s.default_license_days ≤ℤ pos 3650
  pub retention_low : pos 7 ≤ℤ s.audit_log_retention_days
  pub retention_high : s.audit_log_retention_days ≤ℤ pos 3650

clamp_int-le : (x lo hi : ℤ) → lo ≤ℤ hi → clamp_int x lo hi ≤ℤ hi
unfolding clamp_int
clamp_int-le x lo hi h = ground arith

le-clamp_int : (x lo hi : ℤ) → lo ≤ℤ hi → lo ≤ℤ clamp_int x lo hi
unfolding clamp_int
le-clamp_int x lo hi h = ground arith

clamp_int-eq : (x lo hi : ℤ) → lo ≤ℤ x → x ≤ℤ hi → clamp_int x lo hi ≡ x
unfolding clamp_int
clamp_int-eq x lo hi h k = ground arith

-- Whatever is stored, the settings that the server works with are in range.
pub normalize_system_settings-InRange :
    (s : SystemSettings) (now : Time) → InRange (normalize_system_settings s now)
unfolding normalize_system_settings
normalize_system_settings-InRange s now =
    let f = fill_defaults s now in
    let ttl = clamp_int f.default_token_ttl_minutes (pos 5) (pos 43200) in
    let low = le-clamp_int f.default_token_ttl_minutes (pos 5) (pos 43200) (omega arith) in
    record {
      ttl_low = low;
      ttl_high = clamp_int-le f.default_token_ttl_minutes (pos 5) (pos 43200) (omega arith);
      medium_low = le-clamp_int f.medium_risk_token_ttl_minutes (pos 5) ttl low;
      medium_high = clamp_int-le f.medium_risk_token_ttl_minutes (pos 5) ttl low;
      grace_low = le-clamp_int f.offline_grace_days (pos 0) (pos 30) (omega arith);
      grace_high = clamp_int-le f.offline_grace_days (pos 0) (pos 30) (omega arith);
      devices_low = le-clamp_int f.default_max_devices (pos 1) (pos 1000) (omega arith);
      devices_high = clamp_int-le f.default_max_devices (pos 1) (pos 1000) (omega arith);
      license_low = le-clamp_int f.default_license_days (pos 1) (pos 3650) (omega arith);
      license_high = clamp_int-le f.default_license_days (pos 1) (pos 3650) (omega arith);
      retention_low = le-clamp_int f.audit_log_retention_days (pos 7) (pos 3650) (omega arith);
      retention_high = clamp_int-le f.audit_log_retention_days (pos 7) (pos 3650) (omega arith);
    }

positive_or-eq : (x d : ℤ) → pos 1 ≤ℤ x → positive_or x d ≡ x
positive_or-eq x d h = ground arith

fill_defaults-eq :
    (s : SystemSettings) (now : Time)
    → InRange s
    → is_zero s.updated_at ≡ false
    → fill_defaults s now ≡ s
unfolding fill_defaults
fill_defaults-eq s now r set = λ i. record {
  default_token_ttl_minutes =
      positive_or-eq s.default_token_ttl_minutes (pos 720) (omega (arith, r.ttl_low)) i;
  medium_risk_token_ttl_minutes =
      positive_or-eq s.medium_risk_token_ttl_minutes (pos 30) (omega (arith, r.medium_low)) i;
  offline_grace_days = nonneg s.offline_grace_days r.grace_low i;
  default_max_devices = positive_or-eq s.default_max_devices (pos 3) r.devices_low i;
  default_license_days = positive_or-eq s.default_license_days (pos 365) r.license_low i;
  audit_log_retention_days =
      positive_or-eq s.audit_log_retention_days (pos 365) (omega (arith, r.retention_low)) i;
  mfa_required = s.mfa_required;
  sensitive_action_confirm = s.sensitive_action_confirm;
  updated_at = kept i;
}
  where
    nonneg : (x : ℤ) → pos 0 ≤ℤ x → (if ltb_ℤ x (pos 0) then pos 7 else x) ≡ x
    nonneg x h = ground arith

    kept : (if is_zero s.updated_at then now else s.updated_at) ≡ s.updated_at
    kept = rw set

clamp_settings-eq : (s : SystemSettings) → InRange s → clamp_settings s ≡ s
unfolding clamp_settings
clamp_settings-eq s r =
    let ttl = clamp_int-eq s.default_token_ttl_minutes (pos 5) (pos 43200) r.ttl_low r.ttl_high in
    λ i. record {
      default_token_ttl_minutes = ttl i;
      medium_risk_token_ttl_minutes = medium ttl i;
      offline_grace_days =
          clamp_int-eq s.offline_grace_days (pos 0) (pos 30) r.grace_low r.grace_high i;
      default_max_devices =
          clamp_int-eq s.default_max_devices (pos 1) (pos 1000) r.devices_low r.devices_high i;
      default_license_days =
          clamp_int-eq s.default_license_days (pos 1) (pos 3650) r.license_low r.license_high i;
      audit_log_retention_days =
          clamp_int-eq s.audit_log_retention_days (pos 7) (pos 3650) r.retention_low
            r.retention_high i;
      mfa_required = s.mfa_required;
      sensitive_action_confirm = s.sensitive_action_confirm;
      updated_at = s.updated_at;
    }
  where
    medium :
        {ttl : ℤ}
        → ttl ≡ s.default_token_ttl_minutes
        → clamp_int s.medium_risk_token_ttl_minutes (pos 5) ttl ≡ s.medium_risk_token_ttl_minutes
    medium e = rw e (
        clamp_int-eq s.medium_risk_token_ttl_minutes (pos 5) s.default_token_ttl_minutes
          r.medium_low r.medium_high)

-- Settings in range, with a time of update, are left as they are.
pub normalize_system_settings-eq :
    (s : SystemSettings) (now : Time)
    → InRange s
    → is_zero s.updated_at ≡ false
    → normalize_system_settings s now ≡ s
unfolding normalize_system_settings
normalize_system_settings-eq s now r set =
    ap clamp_settings (fill_defaults-eq s now r set) ∙ clamp_settings-eq s r
