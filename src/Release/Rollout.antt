-- ===== src/Release/Rollout.antt =====
-- Staged rollouts and update offers of internal/licensecore/server.go: releaseInRollout, updateInfoLocked.
use license_guard.Base.{ℤ, pos, ◌≤ℤ◌, String, true, false, some, ◌≡◌, arith}
use license_guard.Types.{UpdateInfo}
use license_guard.Server.{Server, Env}
use license_guard.Release.{release_in_rollout, update_info_locked, offer}

-- A device that is in a rollout stays in it when the percentage grows.
pub release_in_rollout_mono :
    (env : Env) (app_id platform release_id device_id : String) (p q : ℤ)
    → p ≤ℤ q
    → release_in_rollout env app_id platform release_id device_id p ≡ true
    → release_in_rollout env app_id platform release_id device_id q ≡ true
unfolding release_in_rollout
release_in_rollout_mono env app_id platform release_id device_id p q h k = ground arith

-- At 100 percent every device is in the rollout, at 0 percent none.
pub release_in_rollout_ends :
    (env : Env) (app_id platform release_id device_id : String) (p : ℤ)
    → (pos 100 ≤ℤ p → release_in_rollout env app_id platform release_id device_id p ≡ true)
      × (p ≤ℤ pos 0 → release_in_rollout env app_id platform release_id device_id p ≡ false)
unfolding release_in_rollout
release_in_rollout_ends env app_id platform release_id device_id p =
    ((λ h. ground arith), λ h. ground arith)

-- An update that one device must take is offered to every device that runs the same version, in the
-- rollout or not.
pub required_update_for_all :
    (env : Env) (s : Server) (app_id platform version device_id other : String) (u : UpdateInfo)
    → update_info_locked env s app_id platform version device_id ≡ some u
    → u.required ≡ true
    → update_info_locked env s app_id platform version other ≡ some u
unfolding update_info_locked offer
required_update_for_all env s app_id platform version device_id other u h must = ground arith
