-- ===== src/Verification/Grant.antt =====
-- The end of processClientVerification (internal/licensecore/server.go): the integrity of the client, its token
-- and the reply.
use license_guard.Base.{
  ℕ, ◌+◌, ◌*◌, pos_part, String, [], ◌∷◌, ◌++◌, Bool, true, ◌||◌, Option, none, some, if◌then◌else◌,
  ◌==◌, Result, ok, err,
}
use license_guard.Types.{
  Device, RiskResult, VerifyResponse, LicenseTokenClaims, SystemSettings, Time, second, unix,
  SignedCapabilityPolicyBundle,
}
use license_guard.Token.{sign_license_token}
use license_guard.Server.{Server, Env, save_locked}
use license_guard.RateLimit.{reset_rate_limit_locked}
use license_guard.Settings.{normalize_system_settings}
use license_guard.Capability.Registry.{signed_capability_policy_bundle_locked}
use license_guard.Release.{update_info_locked}
use license_guard.Integrity.Checks.{Client}
use license_guard.Integrity.{Evaluation, evaluate_integrity_locked, new_integrity_report}
use license_guard.Verification.Monad.{failure, stop, go, M, ◌>>=◌, ◌>>◌}
use license_guard.Verification.Licensing.{ClientVerificationInput, Subject, risk, save_and_deny}
use license_guard.Verification.Admission.{update_device}

abbrev pub client : ClientVerificationInput → Subject → Device → Client
client input subject device = record {
  app_id = subject.app.app_key;
  device_id = device.id;
  license_id = subject.license.id;
  platform = input.platform;
  integrity = input.integrity;
}

unfoldable pub add_report :
    Env → ClientVerificationInput → Subject → Device → Evaluation → Server → Server
unfolding new_integrity_report
add_report env input subject device v s = record s {
  contents = record s.contents {
    integrity_reports =
        s.contents.integrity_reports
        ++ new_integrity_report env 1650 subject.app.app_key device.id input.platform
            input.integrity v.release
          ∷ [];
  };
}

-- settingsLocked
unfoldable pub settings_locked : Env → Server → SystemSettings
settings_locked env s = normalize_system_settings s.contents.settings (env.time 2649)

abbrev pub is_risky : RiskResult → Bool
is_risky r = r.level == "medium" || r.level == "high"

-- `time.Duration(settings.…TTLMinutes) * time.Minute`, of the minutes that the risk allows
unfoldable pub token_ttl : SystemSettings → RiskResult → ℕ
token_ttl settings r =
    pos_part (
      if is_risky r
      then settings.medium_risk_token_ttl_minutes
      else settings.default_token_ttl_minutes)
    * 60
    * second

-- The end of the offline grace, and of the token.
unfoldable pub grace_until : Env → SystemSettings → Time
grace_until env settings =
    env.time 1665 + pos_part settings.offline_grace_days * 24 * 60 * 60 * second

unfoldable pub expires_at : Env → SystemSettings → RiskResult → Time
unfolding token_ttl
expires_at env settings r = env.time 1664 + token_ttl settings r

-- The claims of the token.
unfoldable pub granted_claims :
    Env → SystemSettings → RiskResult → Subject → Device → LicenseTokenClaims
unfolding expires_at grace_until
granted_claims env settings r subject device = record {
  iss = "license-guard";
  app_id = subject.app.app_key;
  license_id = subject.license.id;
  device_id = device.id;
  entitlements = subject.license.entitlements;
  issued_at = unix (env.time 1672);
  expires_at = unix (expires_at env settings r);
  offline_grace_until = unix (grace_until env settings);
}

-- `if err != nil { writeError(w, http.StatusInternalServerError, code, err.Error()); return }`
unfoldable pub or_fail {ℓ} : {A : Type ℓ} → String → Result A → M A
or_fail code (ok a) s = go s a
or_fail code (err e) s = stop s (failure 500 code e)

unfoldable pub save_or_fail : Env → M (Unit {0})
unfolding save_locked
save_or_fail env s =
    let (s', e) = save_locked env s in
    elim e [ none ↦ go s' tt | some message ↦ stop s' (failure 500 "SAVE_FAILED" message) ]

-- The reply that lets the client run.
unfoldable pub granted :
    Env
    → SystemSettings
    → Subject
    → Device
    → RiskResult
    → String
    → Option SignedCapabilityPolicyBundle
    → VerifyResponse
granted env settings subject device risk token policy = record {
  allowed = true;
  code = "";
  message = "";
  license_token = token;
  expires_at = some (expires_at env settings risk);
  offline_grace_until = some (grace_until env settings);
  entitlements = subject.license.entitlements;
  capability_policy = policy;
  device_status = device.status;
  risk = risk;
  update = none;
}

module _ (env : Env) (rate_key : String) where
  -- evaluateIntegrityLocked, the writes to the device, and the report
  unfoldable pub assess : ClientVerificationInput → Subject → Device → M RiskResult
  unfolding save_and_deny update_device add_report
  assess input subject device s =
      let v = evaluate_integrity_locked env s (client input subject device) in
      let seen =
        update_device env input
          (λ d. record d { risk_score = v.risk.score; last_seen_at = env.time 1648 }) v.server in
      let reported = add_report env input subject device v seen in
      if v.deny
      then save_and_deny env rate_key "INTEGRITY_FAILED" "完整性验证失败" v.risk reported
      else go reported v.risk

  unfoldable pub reset_failures : M (Unit {0})
  reset_failures s = go (reset_rate_limit_locked s rate_key) tt

  -- `Update:` is computed when the reply is written
  unfoldable pub with_update :
      ClientVerificationInput → Subject → Device → VerifyResponse → M VerifyResponse
  with_update input subject device v t = go t (record v {
    update =
        update_info_locked env t subject.app.app_key input.platform input.integrity.app_version
          device.id;
  })

  -- The token, the signed policies, the save and the reply.
  unfoldable pub grant : ClientVerificationInput → Subject → Device → RiskResult → M VerifyResponse
  unfolding or_fail save_or_fail reset_failures with_update granted
  grant input subject device risk s =
      (do
        let settings = settings_locked env s
        token ← or_fail "TOKEN_SIGN_FAILED" (
            sign_license_token env.crypto s.private_key
              (granted_claims env settings risk subject device))
        policy ← or_fail "POLICY_SIGN_FAILED" (
            signed_capability_policy_bundle_locked env s subject.app.app_key subject.license.id
              device.id subject.license.entitlements (expires_at env settings risk))
        save_or_fail env
        reset_failures
        with_update input subject device (granted env settings subject device risk token policy))
        s
