-- ===== src/Tests/Examples.antt =====
-- An activation that is granted, for the theorem on processClientVerification (internal/licensecore/server.go).
use license_guard.Challenge.{validate_challenge_locked}
use license_guard.Verification.{verify_client, process_client_verification}
use license_guard.Release.{find_release_locked}
use license_guard.Token.{sign_license_token}
use license_guard.RateLimit.{is_rate_limited_locked}
use license_guard.Integrity.{evaluate_integrity_locked}
use license_guard.Server.Find.{
  find_app_locked, find_license_by_key_locked, find_device_by_fingerprint_locked,
  find_activation_locked, active_device_count_locked,
}
use license_guard.Verification.Admission.{
  new_device, find_or_create_device_locked, add_activation, new_activation, check_device,
  check_token_device, check_token_activation, activate,
}
use license_guard.Verification.Grant.{assess, grant}
use license_guard.Verification.Licensing.{
  client_verification_rate_limit_key, check_rate_limit, check_challenge, require_app, find_subject,
  check_license, check_token_app,
}
use license_guard.Integrity.Checks.{
  release_business_manifest_sha256, db_encryption_status_failed, business_integrity_failed,
}
use license_guard.Capability.Registry.{
  capability_policies_for_app_locked, signed_capability_policy_bundle_locked,
}
use license_guard.Base.{
  find_first, filter_by, lookup, sort_slice, equal_fold, trim_space, one_of, true, ◌≡◌, refl,
}
use license_guard.Types.{VerifyResponse}
use license_guard.Verification.Monad.{verify}
use license_guard.Base.{none}
use license_guard.Verification.Granted.{IsGranted, process_client_verification-IsGranted}
use license_guard.Base.{pos, ◌≤ℤ◌}
use license_guard.Types.{Device}
use license_guard.Server.{Server}
use license_guard.Server.Find.{has_license_id}
use license_guard.Verification.Monad.{go}
use license_guard.Verification.Licensing.{Subject}
use license_guard.Verification.Limits.{activate_within_limit}
use license_guard.Tests.Fixtures.{app, license, env, server, request, activation, reply_of}

abbrev example_reply : VerifyResponse
example_reply = reply_of (process_client_verification env server request activation).1

replied : (process_client_verification env server request activation).1 ≡ verify example_reply
unfolding validate_challenge_locked verify_client process_client_verification find_release_locked
    sign_license_token is_rate_limited_locked equal_fold trim_space one_of find_first filter_by
    lookup sort_slice evaluate_integrity_locked find_app_locked find_license_by_key_locked
    find_device_by_fingerprint_locked find_activation_locked active_device_count_locked new_device
    find_or_create_device_locked check_device check_token_device check_token_activation activate
    assess grant check_rate_limit check_challenge require_app find_subject check_license
    check_token_app release_business_manifest_sha256 db_encryption_status_failed
    business_integrity_failed capability_policies_for_app_locked
    signed_capability_policy_bundle_locked
replied = refl

allowed : example_reply.allowed ≡ true
unfolding validate_challenge_locked verify_client process_client_verification find_release_locked
    sign_license_token is_rate_limited_locked equal_fold trim_space one_of find_first filter_by
    lookup sort_slice evaluate_integrity_locked find_app_locked find_license_by_key_locked
    find_device_by_fingerprint_locked find_activation_locked active_device_count_locked new_device
    find_or_create_device_locked check_device check_token_device check_token_activation activate
    assess grant check_rate_limit check_challenge require_app find_subject check_license
    check_token_app release_business_manifest_sha256 db_encryption_status_failed
    business_integrity_failed capability_policies_for_app_locked
    signed_capability_policy_bundle_locked
allowed = refl

process_client_verification-IsGranted_example :
    IsGranted env server
      (client_verification_rate_limit_key env activation request)
      activation
      (process_client_verification env server request activation).0
      example_reply
process_client_verification-IsGranted_example =
    process_client_verification-IsGranted env server request activation example_reply replied
      allowed

abbrev subject : Subject
subject = record {
  app = app;
  license = license;
  is_license = has_license_id "lic_1";
  claims = none;
}

abbrev device : Device
device = record {
  id = "dev_9";
  device_fingerprint_hash = "fp";
  install_id_hash = "inst";
  platform = "windows";
  os_version = "11";
  machine_name_hash = "m";
  risk_score = pos 10;
  status = "active";
  first_seen_at = 0;
  last_seen_at = 0;
}

abbrev activated_server : Server
activated_server = add_activation (new_activation env subject device) server

no_activation : find_activation_locked server "lic_1" "dev_9" ≡ none
unfolding find_first find_activation_locked
no_activation = refl

activated : activate env "k" subject device server ≡ go activated_server tt
unfolding find_first find_activation_locked active_device_count_locked activate
activated = refl

activate_within_limit_example : pos (active_device_count_locked activated_server "lic_1") ≤ℤ pos 1
activate_within_limit_example =
    activate_within_limit env "k" subject device server activated_server no_activation activated
