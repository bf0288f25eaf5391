-- ===== src/Verification/Limits.antt =====
-- The limit on the devices of a license (internal/licensecore/server.go, processClientVerification).
use license_guard.Base.{
  ℕ, suc, ◌≤◌, ℤ, pos, ◌≤ℤ◌, leb_ℤ, String, List, [], ◌∷◌, ◌++◌, false, ◌&&◌, not, any, length,
  none, if◌then◌else◌, ◌==◌, ◌≡◌, arith,
}
use license_guard.Types.{Device, Activation}
use license_guard.Server.{Server, Env}
use license_guard.Server.Find.{find_activation_locked, active_devices, active_device_count_locked}
use license_guard.Verification.Monad.{go}
use license_guard.Verification.Licensing.{Subject, deny, save_and_deny}
use license_guard.Verification.Admission.{activate, activate_new, add_activation, new_activation}

-- One more activation counts for at most one more device.
active_devices-append :
    (license_id : String) (activations : List Activation) (a : Activation) (seen : List String)
    → length (active_devices license_id (activations ++ a ∷ []) seen)
      ≤ suc (length (active_devices license_id activations seen))
unfolding active_devices
active_devices-append license_id [] a seen = ground arith
active_devices-append license_id (x ∷ rest) a seen = active_devices-append license_id rest a (
    if (x.license_id == license_id && x.activation_status == "active")
      && not (any (λ d. d == x.device_id) seen)
    then x.device_id ∷ seen
    else seen)

add_activation-count :
    (s : Server) (a : Activation) (license_id : String)
    → active_device_count_locked (add_activation a s) license_id
      ≤ suc (active_device_count_locked s license_id)
unfolding active_device_count_locked add_activation
add_activation-count s a license_id = active_devices-append license_id s.contents.activations a []

activate_new-eq :
    (env : Env) (key : String) (subject : Subject) (d : Device) (s : Server) {t : Server}
    → activate_new env key subject d s ≡ go t tt
    → (leb_ℤ subject.license.max_devices (pos (active_device_count_locked s subject.license.id))
        ≡ false)
      × (t ≡ add_activation (new_activation env subject d) s)
unfolding activate_new save_and_deny deny
activate_new-eq env key subject d s h = ground arith

below_limit :
    (count count' : ℕ) (max : ℤ)
    → leb_ℤ max (pos count) ≡ false
    → count' ≤ suc count
    → pos count' ≤ℤ max
below_limit count count' max h k = ground arith

-- The first activation of a license on a device leaves no more active devices than the license allows.
pub activate_within_limit :
    (env : Env) (key : String) (subject : Subject) (d : Device) (s t : Server)
    → find_activation_locked s subject.license.id d.id ≡ none
    → activate env key subject d s ≡ go t tt
    → pos (active_device_count_locked t subject.license.id) ≤ℤ subject.license.max_devices
unfolding activate
activate_within_limit env key subject d s t new h =
    let (room, same) = activate_new-eq env key subject d s (rw (new, activate) at h) in
    below_limit (active_device_count_locked s subject.license.id)
      (active_device_count_locked t subject.license.id) subject.license.max_devices room
      (rw same (add_activation-count s (new_activation env subject d) subject.license.id))
