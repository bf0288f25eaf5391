-- ===== src/Admin.antt =====
-- The actions of administrators on licenses, devices, risk events and settings (internal/licensecore/server.go):
-- handleLicenseAction, handleDeviceAction, handleRiskEventAction, handleSettings. Admin.Catalog: what they add.
pub mod Revocation
pub mod Catalog
pub mod Policies
pub mod Apps
pub mod Rotation
pub mod Issue
use license_guard.Base.{
  ℕ, ℤ, String, List, [], ◌∷◌, Bool, true, false, ◌&&◌, not, Option, none, some, if◌then◌else◌,
  split_on, one_of, concat, ◌==◌, map, update_first, is_some,
}
use license_guard.Types.{
  App, AppRelease, SdkKeyView, CapabilityPolicy, License, Device, Activation, RiskEvent,
  SystemSettings, Time, Value, text,
}
use license_guard.Server.{Server, Env, Request, save_locked}
use license_guard.Server.Find.{
  find_license_by_id_locked, has_license_id, find_device_by_id_locked, has_device_id,
  find_risk_event_by_id_locked, has_event_id,
}
use license_guard.Settings.{normalize_system_settings}
use license_guard.Verification.Grant.{settings_locked}
use license_guard.Audit.{audit_locked}

-- What these handlers write.
pub data AdminReply : Type 0 where
  failure : ℕ → String → String → AdminReply
  license : License → AdminReply
  device : Device → AdminReply
  risk_event : RiskEvent → AdminReply
  settings : SystemSettings → AdminReply
  licenses : List License → AdminReply
  new_license : License → String → AdminReply
  new_app : App → AppRelease → SdkKeyView → String → AdminReply
  new_key : SdkKeyView → String → AdminReply
  release : AppRelease → AdminReply
  -- the policies, and how many of them were added
  policies : List CapabilityPolicy → Option ℕ → AdminReply

abbrev pub method_not_allowed : AdminReply
method_not_allowed = failure 405 "METHOD_NOT_ALLOWED" "method not allowed"

-- A save, and then a reply or the error.
unfoldable pub save_then : Env → AdminReply → Server → Server × AdminReply
unfolding save_locked
save_then env reply s =
    let (s', e) = save_locked env s in
    elim e [ none ↦ (s', reply) | some message ↦ (s', failure 500 "SAVE_FAILED" message) ]

-- The `switch` over the action on a license.
abbrev pub license_status : String → String → String
license_status action status =
    if action == "revoke"
    then "revoked"
    else if action == "suspend"
    then "suspended"
    else if action == "resume"
    then "active"
    else status

abbrev pub act_on_license : String → Time → License → License
act_on_license action now l = record l { status = license_status action l.status; updated_at = now }

abbrev pub block_activation : String → String → Activation → Activation
block_activation license_id action a =
    if a.license_id == license_id && action == "revoke"
    then record a { activation_status = "blocked" }
    else a

-- The writes of an action on a license.
unfoldable pub change_license : Env → String → String → Server → Server
change_license env license_id action s = record s {
  contents = record s.contents {
    licenses =
        update_first (has_license_id license_id) (act_on_license action (env.time 995))
          s.contents.licenses;
    activations = map (block_activation license_id action) s.contents.activations;
  };
}

unfoldable pub license_action :
    Env → Server → Request → String → String → String → Server × AdminReply
unfolding change_license save_then
license_action env s r license_id action admin_id =
    if not (one_of action ("revoke" ∷ "suspend" ∷ "resume" ∷ []))
    then (s, failure 404 "NOT_FOUND" "license action not found")
    else elim (find_license_by_id_locked s license_id) [
      | none ↦ (s, failure 404 "LICENSE_NOT_FOUND" "license not found")
      | some l ↦ save_then env (license (act_on_license action (env.time 995) l)) (
          audit_locked env 1001 admin_id (concat ("license." ∷ action ∷ [])) "license" license_id r
            none (change_license env license_id action s))
    ]

-- The tail of the path: an id and an action.
by_parts :
    (String → String → Server × AdminReply)
    → Server × AdminReply
    → List String
    → Server × AdminReply
by_parts go otherwise (id ∷ action ∷ []) = go id action
by_parts go otherwise _ = otherwise

-- handleLicenseAction
unfoldable pub handle_license_action :
    Env → Server → Request → String → String → Server × AdminReply
unfolding by_parts license_action
handle_license_action env s r tail admin_id =
    if not (r.method == "POST")
    then (s, method_not_allowed)
    else by_parts (λ id action. license_action env s r id action admin_id)
        (s, failure 404 "NOT_FOUND" "license action not found") (split_on b'/' tail)

-- The write to each activation of a device that is unbound.
abbrev pub unbind_activation : String → Time → Activation → Activation
unbind_activation device_id now a =
    if a.device_id == device_id && a.activation_status == "active"
    then record a {
      activation_status = "deactivated";
      deactivated_at = some now;
      last_verified_at = now;
    }
    else a

abbrev pub act_on_device : String → Time → Device → Device
act_on_device action now d = record d {
  status =
      if action == "block" then "blocked" else if action == "unblock" then "active" else d.status;
  last_seen_at = now;
}

-- The writes of an action on a device.
unfoldable pub change_device : Env → String → String → Server → Server
change_device env device_id action s = record s {
  contents = record s.contents {
    devices =
        update_first (has_device_id device_id) (act_on_device action (env.time 1041))
          s.contents.devices;
    activations =
        if one_of action ("block" ∷ "unblock" ∷ [])
        then s.contents.activations
        else map (unbind_activation device_id (env.time 1041)) s.contents.activations;
  };
}

unfoldable pub device_action :
    Env → Server → Request → String → String → String → Server × AdminReply
unfolding change_device save_then
device_action env s r device_id action admin_id =
    if not (one_of action ("block" ∷ "unblock" ∷ "unbind" ∷ []))
    then (s, failure 404 "NOT_FOUND" "device action not found")
    else elim (find_device_by_id_locked s device_id) [
      | none ↦ (s, failure 404 "DEVICE_NOT_FOUND" "device not found")
      | some d ↦ save_then env (device (act_on_device action (env.time 1041) d)) (
          audit_locked env 1056 admin_id (concat ("device." ∷ action ∷ [])) "device" device_id r
            none (change_device env device_id action s))
    ]

-- handleDeviceAction
unfoldable pub handle_device_action : Env → Server → Request → String → String → Server × AdminReply
unfolding by_parts device_action
handle_device_action env s r tail admin_id =
    if not (r.method == "POST")
    then (s, method_not_allowed)
    else by_parts (λ id action. device_action env s r id action admin_id)
        (s, failure 404 "NOT_FOUND" "device action not found") (split_on b'/' tail)

-- The write to a risk event that is not resolved yet.
abbrev pub resolve_event : Time → RiskEvent → RiskEvent
resolve_event now e = if is_some e.resolved_at then e else record e { resolved_at = some now }

unfoldable pub change_event : Env → String → Server → Server
change_event env event_id s = record s {
  contents = record s.contents {
    risk_events =
        update_first (has_event_id event_id) (resolve_event (env.time 1095)) s.contents.risk_events;
  };
}

unfoldable pub resolve : Env → Server → Request → String → String → Server × AdminReply
unfolding change_event save_then
resolve env s r event_id admin_id = elim (find_risk_event_by_id_locked s event_id) [
  | none ↦ (s, failure 404 "RISK_EVENT_NOT_FOUND" "risk event not found")
  | some e ↦ save_then env (risk_event (resolve_event (env.time 1095) e)) (
      if is_some e.resolved_at
      then s
      else audit_locked env 1097 admin_id "risk.resolve" "risk_event" event_id r
          (some (("event_type", text e.event_type) ∷ [])) (change_event env event_id s))
]

-- handleRiskEventAction
unfoldable pub handle_risk_event_action :
    Env → Server → Request → String → String → Server × AdminReply
unfolding by_parts resolve
handle_risk_event_action env s r tail admin_id =
    if not (r.method == "POST")
    then (s, method_not_allowed)
    else by_parts
        (λ id action.
          if not (action == "resolve")
          then (s, failure 404 "NOT_FOUND" "risk event action not found")
          else resolve env s r id admin_id)
        (s, failure 404 "NOT_FOUND" "risk event action not found") (split_on b'/' tail)

-- The body of a change of the settings.
pub record SettingsPatch : Type 0 where
  pub default_token_ttl_minutes : Option ℤ
  pub medium_risk_token_ttl_minutes : Option ℤ
  pub offline_grace_days : Option ℤ
  pub default_max_devices : Option ℤ
  pub default_license_days : Option ℤ
  pub audit_log_retention_days : Option ℤ
  pub mfa_required : Option Bool
  pub sensitive_action_confirm : Option Bool

abbrev pub or_old {ℓ} : {A : Type ℓ} → Option A → A → A
or_old none old = old
or_old (some new) old = new

-- The settings after the fields that the request has.
unfoldable pub patch_settings : SettingsPatch → Time → SystemSettings → SystemSettings
patch_settings req now old = record {
  default_token_ttl_minutes = or_old req.default_token_ttl_minutes old.default_token_ttl_minutes;
  medium_risk_token_ttl_minutes =
      or_old req.medium_risk_token_ttl_minutes old.medium_risk_token_ttl_minutes;
  offline_grace_days = or_old req.offline_grace_days old.offline_grace_days;
  default_max_devices = or_old req.default_max_devices old.default_max_devices;
  default_license_days = or_old req.default_license_days old.default_license_days;
  audit_log_retention_days = or_old req.audit_log_retention_days old.audit_log_retention_days;
  mfa_required = or_old req.mfa_required old.mfa_required;
  sensitive_action_confirm = or_old req.sensitive_action_confirm old.sensitive_action_confirm;
  updated_at = now;
}

-- handleSettings with PATCH, on a decoded body
unfoldable pub update_settings :
    Env → Server → Request → String → SettingsPatch → Server × AdminReply
unfolding patch_settings save_then
update_settings env s r admin_id req =
    let new =
      normalize_system_settings (patch_settings req (env.time 1165) (settings_locked env s))
        (env.time 1165) in
    save_then env (settings new) (
      audit_locked env 1168 admin_id "settings.update" "settings" "system" r none
        (record s { contents = record s.contents { settings = new } }))

-- handleSettings with GET
unfoldable pub read_settings : Env → Server → Server × AdminReply
read_settings env s = (s, settings (settings_locked env s))
