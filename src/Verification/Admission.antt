-- ===== src/Verification/Admission.antt =====
-- The middle of processClientVerification (internal/licensecore/server.go): the client's device, and its
-- activation of the license.
use license_guard.Base.{
  pos, leb_ℤ, String, [], ◌∷◌, ◌++◌, Bool, true, ◌&&◌, not, Option, none, some, if◌then◌else◌, ◌==◌,
  update_first,
}
use license_guard.Types.{Device, Activation, text, integer}
use license_guard.Server.{Server, Env, new_id, hash_string, add_risk_event_locked}
use license_guard.Server.Find.{
  find_device_by_fingerprint_locked, has_fingerprint, find_activation_locked, is_activation,
  active_device_count_locked,
}
use license_guard.Verification.Monad.{go, M}
use license_guard.Verification.Licensing.{
  ClientVerificationInput, Subject, risk, has_claims, claims_fail, save_and_deny,
}

-- What a request's device reports, written to a known device.
abbrev pub refresh_device : Env → ClientVerificationInput → Device → Device
refresh_device env input d = record d {
  os_version = input.device.os_version;
  machine_name_hash = hash_string env input.device.machine_name_hash;
  last_seen_at = env.time 2420;
}

-- The device that a request registers.
unfoldable pub new_device : Env → ClientVerificationInput → Device
unfolding new_id
new_device env input = record {
  id = new_id env 2425 "dev";
  device_fingerprint_hash = hash_string env input.device.fingerprint;
  install_id_hash = hash_string env input.device.install_id;
  platform = input.platform;
  os_version = input.device.os_version;
  machine_name_hash = hash_string env input.device.machine_name_hash;
  risk_score = pos 10;
  status = "active";
  first_seen_at = env.time 2423;
  last_seen_at = env.time 2423;
}

abbrev pub fingerprint_hash : Env → ClientVerificationInput → String
fingerprint_hash env input = hash_string env input.device.fingerprint

-- A write to the device that the request's fingerprint finds.
unfoldable pub update_device : Env → ClientVerificationInput → (Device → Device) → Server → Server
update_device env input f s = record s {
  contents = record s.contents {
    devices = update_first (has_fingerprint (fingerprint_hash env input)) f s.contents.devices;
  };
}

unfoldable pub add_device : Device → Server → Server
add_device d s = record s {
  contents = record s.contents { devices = s.contents.devices ++ d ∷ [] };
}

-- findOrCreateDeviceLocked
unfoldable pub find_or_create_device_locked : Env → ClientVerificationInput → M Device
unfolding update_device add_device
find_or_create_device_locked env input s =
    elim (find_device_by_fingerprint_locked s (fingerprint_hash env input)) [
      | none ↦ let d = new_device env input in go (add_device d s) d
      | some d ↦
          go (update_device env input (refresh_device env input) s) (refresh_device env input d)
    ]

-- A write to the activation of a license on a device.
unfoldable pub update_activation : String → String → (Activation → Activation) → Server → Server
update_activation license_id device_id f s = record s {
  contents = record s.contents {
    activations = update_first (is_activation license_id device_id) f s.contents.activations;
  };
}

unfoldable pub add_activation : Activation → Server → Server
add_activation a s = record s {
  contents = record s.contents { activations = s.contents.activations ++ a ∷ [] };
}

unfoldable pub new_activation : Env → Subject → Device → Activation
unfolding new_id
new_activation env subject device = record {
  id = new_id env 1633 "act";
  license_id = subject.license.id;
  device_id = device.id;
  app_id = subject.app.app_key;
  activation_status = "active";
  activated_at = env.time 1631;
  last_verified_at = env.time 1631;
  deactivated_at = none;
}

-- The write to an activation that is there.
abbrev pub renew_activation : Env → Activation → Activation
renew_activation env a = record a { activation_status = "active"; last_verified_at = env.time 1643 }

-- `activation == nil || activation.ActivationStatus != "active"`
abbrev pub is_inactive : Option Activation → Bool
is_inactive none = true
is_inactive (some a) = not (a.activation_status == "active")

module _ (env : Env) (rate_key : String) where
  unfoldable pub check_device : Subject → Device → M (Unit {0})
  unfolding save_and_deny
  check_device subject device s =
      if device.status == "blocked"
      then save_and_deny env rate_key "DEVICE_BLOCKED" "设备已封禁" (risk "high" 90 "deny") (
          add_risk_event_locked env 1604 subject.app.app_key device.id subject.license.id
            "device_blocked" "high" "deny" "设备已被后台封禁" none s)
      else go s tt

  unfoldable pub check_token_device : Subject → Device → M (Unit {0})
  unfolding save_and_deny
  check_token_device subject device s =
      if claims_fail subject.claims (λ c. not (c.device_id == device.id))
      then save_and_deny env rate_key "TOKEN_DEVICE_MISMATCH" "授权 token 与当前设备不匹配"
          (risk "high" 92 "deny")
          (add_risk_event_locked env 1610 subject.app.app_key device.id subject.license.id
            "token_device_mismatch" "high" "deny" "授权 token 与当前设备不匹配"
            (some (elim subject.claims [
              | none ↦ []
              | some c ↦ ("token_device_id", text c.device_id) ∷ []
            ]))
            s)
      else go s tt

  unfoldable pub check_token_activation : Subject → Device → M (Unit {0})
  unfolding save_and_deny
  check_token_activation subject device s =
      if has_claims subject.claims
        && is_inactive (find_activation_locked s subject.license.id device.id)
      then save_and_deny env rate_key "TOKEN_DEACTIVATED" "授权 token 已停用，请重新激活"
          (risk "medium" 60 "deny")
          (add_risk_event_locked env 1618 subject.app.app_key device.id subject.license.id
            "token_activation_inactive" "medium" "deny" "授权 token 对应的激活已停用" none s)
      else go s tt

  -- The first activation of a license on a device, within the license's limit.
  unfoldable pub activate_new : Subject → Device → M (Unit {0})
  unfolding save_and_deny add_activation
  activate_new subject device s =
      let lic = subject.license in
      if leb_ℤ lic.max_devices (pos (active_device_count_locked s lic.id))
      then save_and_deny env rate_key "DEVICE_LIMIT_EXCEEDED" "授权绑定设备数已达到上限"
          (risk "medium" 58 "review")
          (add_risk_event_locked env 1626 subject.app.app_key device.id lic.id
            "device_limit_exceeded" "medium" "deny" "授权绑定设备数已达到上限"
            (some (("max_devices", integer lic.max_devices) ∷ [])) s)
      else go (add_activation (new_activation env subject device) s) tt

  unfoldable pub activate : Subject → Device → M (Unit {0})
  unfolding activate_new update_activation
  activate subject device s = elim (find_activation_locked s subject.license.id device.id) [
    | none ↦ activate_new subject device s
    | some a ↦ go (update_activation subject.license.id device.id (renew_activation env) s) tt
  ]
