-- ===== src/Admin/Rotation.antt =====
-- The rotation of the SDK keys of an app (internal/licensecore/server.go, handleSDKKeyRotate).
use license_guard.Base.{String, List, ◌&&◌, not, ◌==◌, filter_by}
use license_guard.Types.{SdkKey}
use license_guard.Server.{Server}

-- The keys of an app that are in use, and the keys of other apps.
abbrev pub active_keys : String → List SdkKey → List SdkKey
active_keys app_id keys = filter_by (λ k. k.app_id == app_id && k.status == "active") keys

abbrev pub other_keys : String → List SdkKey → List SdkKey
other_keys app_id keys = filter_by (λ k. not (k.app_id == app_id)) keys
