-- ===== src/Server/Find.antt =====
-- The searches of internal/licensecore/server.go over the stored lists. A pointer that a search returns
-- is the element; a write through it is `update_first` by the same test.
use license_guard.Base.{
  ℕ, String, List, [], ◌∷◌, Bool, ◌==◌, ◌&&◌, ◌||◌, not, Option, find_first, any, length,
  if◌then◌else◌,
}
use license_guard.Types.{App, License, CapabilityPolicy, Device, Activation, RiskEvent}
use license_guard.Server.{Server, Env, hash_string}

-- findAppLocked
unfoldable pub find_app_locked : Server → String → Option App
find_app_locked s app_id = find_first (λ a. a.app_key == app_id || a.id == app_id) s.contents.apps

-- findLicenseByKeyLocked
abbrev pub has_key_hash : String → License → Bool
has_key_hash hash l = l.license_key_hash == hash

unfoldable pub find_license_by_key_locked : Env → Server → String → Option License
find_license_by_key_locked env s key =
    find_first (has_key_hash (hash_string env key)) s.contents.licenses

-- findLicenseByIDLocked
abbrev pub has_license_id : String → License → Bool
has_license_id id l = l.id == id

unfoldable pub find_license_by_id_locked : Server → String → Option License
find_license_by_id_locked s id = find_first (has_license_id id) s.contents.licenses

-- findDeviceByFingerprintLocked
abbrev pub has_fingerprint : String → Device → Bool
has_fingerprint hash d = d.device_fingerprint_hash == hash

unfoldable pub find_device_by_fingerprint_locked : Server → String → Option Device
find_device_by_fingerprint_locked s hash = find_first (has_fingerprint hash) s.contents.devices

-- findDeviceByIDLocked
abbrev pub has_device_id : String → Device → Bool
has_device_id id d = d.id == id

unfoldable pub find_device_by_id_locked : Server → String → Option Device
find_device_by_id_locked s id = find_first (has_device_id id) s.contents.devices

-- findActivationLocked
abbrev pub is_activation : String → String → Activation → Bool
is_activation license_id device_id a = a.license_id == license_id && a.device_id == device_id

unfoldable pub find_activation_locked : Server → String → String → Option Activation
find_activation_locked s license_id device_id =
    find_first (is_activation license_id device_id) s.contents.activations

-- activeDeviceCountLocked: the size of the set of device ids with an active activation.
abbrev pub is_active_for : String → Activation → Bool
is_active_for license_id a = a.license_id == license_id && a.activation_status == "active"

unfoldable pub active_devices : String → List Activation → List String → List String
active_devices license_id [] seen = seen
active_devices license_id (a ∷ rest) seen = active_devices license_id rest (
    if is_active_for license_id a && not (any (λ d. d == a.device_id) seen)
    then a.device_id ∷ seen
    else seen)

unfoldable pub active_device_count_locked : Server → String → ℕ
unfolding active_devices
active_device_count_locked s license_id =
    length (active_devices license_id s.contents.activations [])

-- findCapabilityPolicyLocked
abbrev pub is_policy : String → String → CapabilityPolicy → Bool
is_policy app_id capability p = p.app_id == app_id && p.capability == capability

unfoldable pub find_capability_policy_locked : Server → String → String → Option CapabilityPolicy
find_capability_policy_locked s app_id capability =
    find_first (is_policy app_id capability) s.contents.capability_policies

-- findRiskEventByIDLocked
abbrev pub has_event_id : String → RiskEvent → Bool
has_event_id id e = e.id == id

unfoldable pub find_risk_event_by_id_locked : Server → String → Option RiskEvent
find_risk_event_by_id_locked s id = find_first (has_event_id id) s.contents.risk_events
