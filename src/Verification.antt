-- ===== src/Verification.antt =====
-- Activation and verification of clients: processClientVerification of internal/licensecore/server.go and the
-- handlers that call it.
pub mod Monad
pub mod Licensing
pub mod Admission
pub mod Grant
pub mod Refusal
pub mod Soundness
pub mod Outcome
pub mod Devices
pub mod Granted
pub mod Frame
pub mod Frames
pub mod Preservation
pub mod Limits
use license_guard.Base.{ℕ, String, List, Bool, true, false, if◌then◌else◌, is_empty}
use license_guard.Types.{App, Device, DeviceInfo, IntegrityRequest, VerifyResponse}
use license_guard.Server.{Server, Env, Request}
use license_guard.RateLimit.{is_rate_limited_locked, record_rate_limit_failure_locked}
use Monad.{Reply, failure, verify, Step, stop, go, M, ◌>>=◌, ◌>>◌}
use Licensing.{
  ClientVerificationInput, Subject, is_incomplete, rate_limited, client_verification_rate_limit_key,
  check_rate_limit, check_challenge, require_app, find_subject, check_license, check_token_app,
}
use Admission.{
  find_or_create_device_locked, check_device, check_token_device, check_token_activation, activate,
}
use Grant.{assess, grant}

module _ (env : Env) (rate_key : String) where
  -- The request's device, once it may use the license: it is activated.
  unfoldable pub admit : ClientVerificationInput → Subject → M Device
  admit input subject = do
    device ← find_or_create_device_locked env input
    check_device env rate_key subject device
    check_token_device env rate_key subject device
    check_token_activation env rate_key subject device
    activate env rate_key subject device
    λ s. go s device

  -- The license that the request is about, once it is known to be in force.
  unfoldable pub identify : ClientVerificationInput → M Subject
  identify input = do
    check_rate_limit env rate_key
    check_challenge env rate_key input
    app ← require_app env rate_key input
    subject ← find_subject env rate_key input app
    check_license env rate_key subject
    check_token_app env rate_key subject
    λ s. go s subject

  -- processClientVerification, with the lock held and all fields given
  unfoldable pub verify_client : ClientVerificationInput → M VerifyResponse
  unfolding identify admit
  verify_client input = do
    subject ← identify input
    device ← admit input subject
    risk ← assess env rate_key input subject device
    grant env rate_key input subject device risk

-- The server and the reply at the end.
abbrev pub finish : Step VerifyResponse → Server × Reply
finish (stop s r) = (s, r)
finish (go s v) = (s, verify v)

-- The answer to a request that lacks a field.
unfoldable pub reject_incomplete : Env → Server → String → Server × Reply
reject_incomplete env s rate_key =
    if is_rate_limited_locked s rate_key (env.time 1535) then (s, rate_limited) else (
      record_rate_limit_failure_locked s rate_key (env.time 1540),
      failure 400 "INVALID_REQUEST" "app_id, challenge, nonce and device identifiers are required",
    )

-- processClientVerification
unfoldable pub process_client_verification :
    Env → Server → Request → ClientVerificationInput → Server × Reply
unfolding reject_incomplete
process_client_verification env s r input =
    let rate_key = client_verification_rate_limit_key env input r in
    if is_incomplete input
    then reject_incomplete env s rate_key
    else finish (verify_client env rate_key input s)

-- The body of an activation or of a verification; an activation has no token.
pub record VerifyBody : Type 0 where
  pub app_id : String
  pub platform : String
  pub license_key : String
  pub license_token : String
  pub challenge_id : String
  pub nonce : String
  pub device : DeviceInfo
  pub integrity : IntegrityRequest

abbrev platform_or_windows : String → String
platform_or_windows p = if is_empty p then "windows" else p

-- handleActivate, on a decoded body
unfoldable pub handle_activate : Env → Server → Request → VerifyBody → Server × Reply
handle_activate env s r req = process_client_verification env s r (record {
  app_id = req.app_id;
  platform = platform_or_windows req.platform;
  license_key = req.license_key;
  license_token = "";
  challenge_id = req.challenge_id;
  nonce = req.nonce;
  device = req.device;
  integrity = req.integrity;
  is_activation = true;
})

-- handleVerify, on a decoded body
unfoldable pub handle_verify : Env → Server → Request → VerifyBody → Server × Reply
handle_verify env s r req = process_client_verification env s r (record {
  app_id = req.app_id;
  platform = platform_or_windows req.platform;
  license_key = req.license_key;
  license_token = req.license_token;
  challenge_id = req.challenge_id;
  nonce = req.nonce;
  device = req.device;
  integrity = req.integrity;
  is_activation = false;
})
