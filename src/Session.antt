-- ===== src/Session.antt =====
-- The endpoints of internal/licensecore/server.go that a client with a token calls: handleCapabilityCheck and
-- handleDeactivate, each on a decoded body; and what all of them write and share.
pub mod Revocation
pub mod Deactivation
pub mod Heartbeat
pub mod Standing
pub mod Alive
use license_guard.Base.{
  ℕ, String, List, [], ◌∷◌, Bool, true, false, ◌&&◌, ◌||◌, not, Option, none, some, if◌then◌else◌,
  is_empty, is_some, ◌==◌, trim_space, update_first, ◌≡◌,
}
use license_guard.Types.{
  LicenseTokenClaims, License, Activation, Device, CapabilityDecision, RiskResult, Time, Value,
  text,
}
use license_guard.Token.{TokenResult, valid, expired, invalid, verify_license_token}
use license_guard.Server.{Server, Env, hash_string, save_locked, add_risk_event_locked}
use license_guard.Server.Find.{
  find_license_by_id_locked, find_activation_locked, is_activation, find_device_by_id_locked,
  has_device_id, find_capability_policy_locked,
}
use license_guard.Capability.{capability_decision}

-- What the handlers write. A heartbeat is `alive`, with the risk if it was evaluated, or not.
pub data SessionReply : Type 0 where
  failure : ℕ → String → String → SessionReply
  decided : CapabilityDecision → SessionReply
  deactivated : Bool → Time → SessionReply
  alive : Option RiskResult → Time → SessionReply
  not_alive : RiskResult → Time → SessionReply

-- The token of a request, called at a line, and the app that the request names.
unfoldable pub with_token :
    Env
    → ℕ
    → Server
    → String
    → String
    → (LicenseTokenClaims → Server × SessionReply)
    → Server × SessionReply
with_token env line s token app_id go =
    elim (verify_license_token env.crypto s.public_key (env.time line) token false) [
      | invalid e ↦ (s, failure 401 "INVALID_TOKEN" e)
      | expired claims ↦ (s, failure 401 "INVALID_TOKEN" "license token expired")
      | valid claims ↦
          let out = go claims in
          if not (is_empty app_id) && not (claims.app_id == app_id)
          then (s, failure 403 "APP_MISMATCH" "token app does not match request app")
          else out
    ]

-- `if err != nil { writeError(…, "SAVE_FAILED", …) }` after a save, or else a reply
unfoldable pub save_and_reply : Env → SessionReply → Server → Server × SessionReply
unfolding save_locked
save_and_reply env reply s =
    let (s', e) = save_locked env s in
    elim e [ none ↦ (s', reply) | some message ↦ (s', failure 500 "SAVE_FAILED" message) ]

-- addCapabilityDenyRiskEventLocked
unfoldable pub add_capability_deny_risk_event_locked :
    Env → String → String → String → CapabilityDecision → Server → Server
add_capability_deny_risk_event_locked env app_id device_id license_id d =
    add_risk_event_locked env 3638 app_id device_id license_id "capability_denied"
      (if d.effective_mode == "warn"
          || d.effective_mode == "watermark"
          || d.effective_mode == "degrade"
        then "low"
        else "medium")
      (if is_empty d.effective_mode then "deny" else d.effective_mode) "能力授权被拒绝"
      (some (
        ("capability", text d.capability)
        ∷ ("required_entitlement", text d.required_entitlement)
        ∷ ("configured_mode", text d.configured_mode)
        ∷ ("effective_mode", text d.effective_mode)
        ∷ ("reason", text d.reason)
        ∷ []))

abbrev pub is_active_license : String → Option License → Bool
is_active_license app_id none = false
is_active_license app_id (some l) = l.app_id == app_id && l.status == "active"

abbrev pub is_active_activation : Option Activation → Bool
is_active_activation none = false
is_active_activation (some a) = a.activation_status == "active"

abbrev entitlements_of : Option License → List String
entitlements_of none = []
entitlements_of (some l) = l.entitlements

-- The decision, and the record of a refusal.
unfoldable pub decide :
    Env → Server → LicenseTokenClaims → Option License → String → Server × SessionReply
unfolding save_and_reply add_capability_deny_risk_event_locked
decide env s claims lic capability =
    let d =
      capability_decision (find_capability_policy_locked s claims.app_id capability)
        (entitlements_of lic) capability in
    if d.allowed
    then (s, decided d)
    else save_and_reply env (decided d) (
        add_capability_deny_risk_event_locked env claims.app_id claims.device_id claims.license_id d
          s)

unfoldable pub check_capability : Env → Server → String → LicenseTokenClaims → Server × SessionReply
unfolding decide
check_capability env s capability claims =
    let lic = find_license_by_id_locked s claims.license_id in
    if not (is_active_license claims.app_id lic)
    then (s, failure 403 "LICENSE_NOT_ACTIVE" "授权不存在或不可用")
    else if not (is_active_activation (find_activation_locked s claims.license_id claims.device_id))
    then (s, failure 403 "ACTIVATION_NOT_ACTIVE" "授权激活不存在或不可用")
    else decide env s claims lic capability

-- handleCapabilityCheck
unfoldable pub handle_capability_check :
    Env → Server → String → String → String → Server × SessionReply
unfolding with_token check_capability
handle_capability_check env s app_id license_token capability =
    let name = trim_space capability in
    if is_empty license_token || is_empty name
    then (s, failure 400 "INVALID_REQUEST" "license_token and capability are required")
    else with_token env 1409 s license_token app_id (check_capability env s name)

-- `device != nil && installID != "" && device.InstallIDHash != hashString(installID)`
abbrev pub is_other_install : Env → Option Device → String → Bool
is_other_install env none install_id = false
is_other_install env (some d) install_id =
    not (is_empty install_id) && not (d.install_id_hash == hash_string env install_id)

-- The write to an activation that is not deactivated yet.
abbrev pub deactivate_activation : Time → Activation → Activation
deactivate_activation now a = if a.activation_status == "deactivated" then a else record a {
  activation_status = "deactivated";
  last_verified_at = now;
  deactivated_at = some now;
}

abbrev pub can_deactivate : Option Activation → Bool
can_deactivate none = false
can_deactivate (some a) = not (a.activation_status == "deactivated")

-- The writes to the activation and to the device.
unfoldable pub deactivate : Time → LicenseTokenClaims → Server → Server
deactivate now claims s = record s {
  contents = record s.contents {
    activations =
        update_first (is_activation claims.license_id claims.device_id) (deactivate_activation now)
          s.contents.activations;
    devices =
        update_first (has_device_id claims.device_id) (λ d. record d { last_seen_at = now })
          s.contents.devices;
  };
}

unfoldable pub deactivate_device :
    Env → Server → String → LicenseTokenClaims → Server × SessionReply
unfolding save_and_reply deactivate
deactivate_device env s install_id claims =
    if is_other_install env (find_device_by_id_locked s claims.device_id) install_id
    then save_and_reply env (failure 403 "TOKEN_DEVICE_MISMATCH" "授权 token 与当前设备不匹配") (
        add_risk_event_locked env 1470 claims.app_id claims.device_id claims.license_id
          "token_device_mismatch" "high" "deny" "deactivate token 与 install_id 不匹配" none s)
    else save_and_reply env
        (deactivated (can_deactivate (find_activation_locked s claims.license_id claims.device_id))
          (env.time 1466))
        (deactivate (env.time 1466) claims s)

-- handleDeactivate
unfoldable pub handle_deactivate : Env → Server → String → String → String → Server × SessionReply
unfolding with_token deactivate_device
handle_deactivate env s app_id license_token install_id =
    with_token env 1456 s license_token app_id (deactivate_device env s install_id)
