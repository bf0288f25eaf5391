-- ===== src/Session/Heartbeat.antt =====
-- handleHeartbeat and integrityRequestHasEvidence (internal/licensecore/server.go), on a decoded body.
use license_guard.Base.{
  String, List, [], ◌∷◌, ◌++◌, Bool, true, false, ◌||◌, not, Option, none, some, if◌then◌else◌,
  is_empty, is_some, update_first,
}
use license_guard.Types.{LicenseTokenClaims, Device, IntegrityRequest, Time}
use license_guard.Server.{Server, Env, add_risk_event_locked}
use license_guard.Server.Find.{is_activation, find_device_by_id_locked, has_device_id}
use license_guard.Integrity.Checks.{Client}
use license_guard.Integrity.{evaluate_integrity_locked, new_integrity_report}
use license_guard.Session.{
  SessionReply, failure, alive, not_alive, with_token, save_and_reply, is_other_install,
}

-- The body of the request.
pub record Heartbeat : Type 0 where
  pub app_id : String
  pub platform : String
  pub license_token : String
  pub install_id : String
  pub app_version : String
  pub integrity : Option IntegrityRequest

-- `len(xs) > 0`
abbrev has_any : List String → Bool
has_any [] = false
has_any (x ∷ xs) = true

-- integrityRequestHasEvidence
unfoldable pub integrity_request_has_evidence : IntegrityRequest → Bool
integrity_request_has_evidence i =
    not (is_empty i.app_version)
    || not (is_empty i.main_binary_hash)
    || not (is_empty i.signer_thumbprint)
    || not (is_empty i.business_manifest_sha256)
    || is_some i.business_manifest_signature_valid
    || not (is_empty i.protected_db_schema_hash)
    || not (is_empty i.protected_db_tables_hash)
    || not (is_empty i.assets_manifest_sha256)
    || not (is_empty i.workflow_manifest_sha256)
    || not (is_empty i.business_integrity_status)
    || has_any i.business_integrity_errors
    || not (is_empty i.db_encryption_status)
    || has_any i.db_encryption_errors
    || i.debugger_detected
    || has_any i.suspicious_modules
    || has_any i.vm_indicators

-- `activation.LastVerifiedAt = now`
unfoldable pub touch_activation : Time → LicenseTokenClaims → Server → Server
touch_activation now claims s = record s {
  contents = record s.contents {
    activations =
        update_first (is_activation claims.license_id claims.device_id)
          (λ a. record a { last_verified_at = now }) s.contents.activations;
  };
}

-- A write to the device of the token.
unfoldable pub write_device : LicenseTokenClaims → (Device → Device) → Server → Server
write_device claims f s = record s {
  contents = record s.contents {
    devices = update_first (has_device_id claims.device_id) f s.contents.devices;
  };
}

-- The platform: the request's, or the device's, or "windows".
abbrev pub heartbeat_platform : String → Option Device → String
heartbeat_platform platform device =
    let known =
      if is_empty platform
      then elim device [ none ↦ platform | some d ↦ d.platform ]
      else platform in
    if is_empty known then "windows" else known

-- The integrity of the request, with the version of the request if it names none itself.
abbrev pub with_version : String → IntegrityRequest → IntegrityRequest
with_version version i = if is_empty i.app_version then record i { app_version = version } else i

abbrev pub beating_client : LicenseTokenClaims → String → IntegrityRequest → Client
beating_client claims platform integrity = record {
  app_id = claims.app_id;
  device_id = claims.device_id;
  license_id = claims.license_id;
  platform = platform;
  integrity = integrity;
}

-- The evaluation of a report with evidence: the writes, and the reply.
unfoldable pub assess_heartbeat :
    Env → LicenseTokenClaims → String → IntegrityRequest → Time → Server → Server × SessionReply
unfolding write_device save_and_reply
assess_heartbeat env claims platform integrity now s =
    let v = evaluate_integrity_locked env s (beating_client claims platform integrity) in
    let scored = write_device claims (λ d. record d { risk_score = v.risk.score }) v.server in
    let reported = record scored {
      contents = record scored.contents {
        integrity_reports =
            scored.contents.integrity_reports
            ++ new_integrity_report env 1363 claims.app_id claims.device_id platform integrity
                v.release
              ∷ [];
      };
    } in
    save_and_reply env (if v.deny then not_alive v.risk now else alive (some v.risk) now) reported

unfoldable pub report_heartbeat :
    Env
    → LicenseTokenClaims
    → String
    → String
    → Option IntegrityRequest
    → Time
    → Server
    → Server × SessionReply
unfolding assess_heartbeat save_and_reply
report_heartbeat env claims platform version none now s = save_and_reply env (alive none now) s
report_heartbeat env claims platform version (some i) now s =
    let integrity = with_version version i in
    if not (integrity_request_has_evidence integrity)
    then save_and_reply env (alive none now) s
    else assess_heartbeat env claims platform integrity now s

unfoldable pub beat : Env → Server → Heartbeat → LicenseTokenClaims → Server × SessionReply
unfolding report_heartbeat touch_activation write_device save_and_reply
beat env s h claims =
    let now = env.time 1316 in
    let touched = touch_activation now claims s in
    let device = find_device_by_id_locked touched claims.device_id in
    if is_other_install env device h.install_id
    then save_and_reply env (failure 403 "TOKEN_DEVICE_MISMATCH" "授权 token 与当前设备不匹配") (
        add_risk_event_locked env 1325 claims.app_id claims.device_id claims.license_id
          "token_device_mismatch" "high" "deny" "心跳 token 与 install_id 不匹配" none touched)
    else report_heartbeat env claims (heartbeat_platform h.platform device) h.app_version
        h.integrity now (write_device claims (λ d. record d { last_seen_at = now }) touched)

-- handleHeartbeat
unfoldable pub handle_heartbeat : Env → Server → Heartbeat → Server × SessionReply
unfolding with_token beat
handle_heartbeat env s h = with_token env 1306 s h.license_token h.app_id (beat env s h)
