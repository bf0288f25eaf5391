-- ===== src/Tests/Clients.antt =====
-- The theorems on the Go client (sdk/go/licenseguard) and on the requests that clients make
-- (internal/licensecore/server.go) at concrete data.
use license_guard.Challenge.{validate_challenge_locked}
use license_guard.Verification.{verify_client, process_client_verification}
use license_guard.Settings.{normalize_system_settings}
use license_guard.Release.{find_release_locked}
use license_guard.Token.{sign_license_token, verify_license_token}
use license_guard.RateLimit.{is_rate_limited_locked}
use license_guard.Integrity.{evaluate_integrity_locked}
use license_guard.Server.Find.{
  find_app_locked, find_license_by_key_locked, find_license_by_id_locked,
  find_device_by_fingerprint_locked, find_activation_locked, active_device_count_locked,
}
use license_guard.Verification.Admission.{
  new_device, find_or_create_device_locked, check_device, check_token_device,
  check_token_activation, activate,
}
use license_guard.Verification.Grant.{settings_locked, granted_claims, assess, grant}
use license_guard.Verification.Licensing.{
  check_rate_limit, check_challenge, require_app, find_subject, check_license, check_token_app,
}
use license_guard.Integrity.Checks.{
  release_business_manifest_sha256, db_encryption_status_failed, business_integrity_failed,
}
use license_guard.Capability.Registry.{
  capability_policies_for_app_locked, sign_capability_policy_bundle,
  signed_capability_policy_bundle_locked,
}
use license_guard.Base.{
  find_first, filter_by, lookup, sort_slice, equal_fold, trim_space, join, one_of, split_on, true,
  false, ◌≡◌, refl,
}
use license_guard.Verification.Monad.{allows}
use license_guard.Base.{
  pos, arith, ◌*◌, ◌+◌, [], ◌∷◌, true, false, none, some, ok, err, ◌≢◌, ◌↔◌, is_empty, eq_iff,
  trim_prefix,
}
use license_guard.Types.{App, LicenseTokenClaims, VerifyResponse, second, unix}
use license_guard.Token.{Bytes, valid}
use license_guard.Server.{Server, Env}
use license_guard.Session.{decided, handle_capability_check}
use license_guard.Session.Heartbeat.{Heartbeat}
use license_guard.Verification.{VerifyBody}
use license_guard.Verification.Monad.{allows, verify}
use license_guard.Verification.Licensing.{ClientVerificationInput}
use license_guard.Verification.Frame.{Frame}
use license_guard.System.{heartbeat, verification, serve, Reaches, here, answers}
use license_guard.System.Clients.{reaches-Frame}
use license_guard.System.Revoked.{reaches-refused}
use license_guard.Sdk.{
  ClientEnv, Options, parse_public_key, unix_time, no_later, sdk_has_entitlement, is_allowed,
  keep_result,
}
use license_guard.Sdk.Offline.{IsOffline, is_allowed-IsOffline}
use license_guard.Sdk.Kept.{kept_reply-is_allowed}
use license_guard.Tests.Codec.{codec_for, codec_for-IsLawful, example_claims}
use license_guard.Tests.Fixtures.{
  env, server, contents, request, license, policy, now, activation, integrity, device_info,
  reply_of,
}
use license_guard.Tests.Sessions.{early_env, active_server, token, decision}

-- The client keeps what the server grants.

abbrev claims : LicenseTokenClaims
claims = record {
  iss = "license-guard";
  app_id = "visionflow";
  license_id = "lic_1";
  device_id = "dev_20260101_rnd";
  entitlements = "render" ∷ [];
  issued_at = pos 1864403200;
  expires_at = pos 1864446400;
  offline_grace_until = pos 1865008000;
}

abbrev key : Bytes
key =
    0 ∷ 0 ∷ 0 ∷ 0 ∷ 0 ∷ 0 ∷ 0 ∷ 0 ∷ 0 ∷ 0 ∷ 0 ∷ 0 ∷ 0 ∷ 0 ∷ 0 ∷ 0 ∷ 0 ∷ 0 ∷ 0 ∷ 0 ∷ 0 ∷ 0 ∷ 0 ∷ 0
    ∷ 0 ∷ 0 ∷ 0 ∷ 0 ∷ 0 ∷ 0 ∷ 0 ∷ 0 ∷ []

abbrev signing_env : Env
signing_env = record env { crypto = codec_for claims }

abbrev signing_server : Server
signing_server = record server {
  contents = record contents { capability_policies = policy "render" "render" ∷ [] };
  public_key = key;
  private_key = 2 ∷ [];
}

abbrev client_env : ClientEnv
client_env = record {
  crypto = codec_for claims;
  decode_std = λ t. err "not standard";
  verified_at = now + second;
  now = now + second;
  parse_time = λ t. none;
  format_time = λ t. "2029-01-29T00:00:00Z";
}

abbrev options : Options
options = record { app_id = "visionflow"; public_key = "ed25519:00000000000000000000000000000000" }

abbrev reply : VerifyResponse
reply = reply_of (process_client_verification signing_env signing_server request activation).1

replied :
    (process_client_verification signing_env signing_server request activation).1 ≡ verify reply
unfolding unix validate_challenge_locked verify_client process_client_verification
    normalize_system_settings find_release_locked sign_license_token is_rate_limited_locked
    equal_fold trim_space join one_of find_first filter_by lookup sort_slice
    evaluate_integrity_locked find_app_locked find_license_by_key_locked
    find_device_by_fingerprint_locked find_activation_locked active_device_count_locked new_device
    find_or_create_device_locked check_device check_token_device check_token_activation activate
    settings_locked granted_claims assess grant check_rate_limit check_challenge require_app
    find_subject check_license check_token_app release_business_manifest_sha256
    db_encryption_status_failed business_integrity_failed capability_policies_for_app_locked
    sign_capability_policy_bundle signed_capability_policy_bundle_locked
replied = refl

reply_allows : reply.allowed ≡ true
unfolding unix validate_challenge_locked verify_client process_client_verification
    normalize_system_settings find_release_locked sign_license_token is_rate_limited_locked
    equal_fold trim_space join one_of find_first filter_by lookup sort_slice
    evaluate_integrity_locked find_app_locked find_license_by_key_locked
    find_device_by_fingerprint_locked find_activation_locked active_device_count_locked new_device
    find_or_create_device_locked check_device check_token_device check_token_activation activate
    settings_locked granted_claims assess grant check_rate_limit check_challenge require_app
    find_subject check_license check_token_app release_business_manifest_sha256
    db_encryption_status_failed business_integrity_failed capability_policies_for_app_locked
    sign_capability_policy_bundle signed_capability_policy_bundle_locked
reply_allows = refl

key_parsed : parse_public_key client_env options.public_key ≡ ok key
unfolding trim_space trim_prefix parse_public_key
key_parsed = refl

visible :
    (m : Bytes)
    → is_empty (
        trim_space
          (signing_env.crypto.encode (signing_env.crypto.sign signing_server.private_key m)))
      ≡ false
unfolding trim_space
visible m = refl

same_app :
    (a : App)
    → find_app_locked signing_server activation.app_id ≡ some a
    → options.app_id ≡ a.app_key
unfolding find_first find_app_locked
same_app a h = ground (arith, h)

expiry : reply.expires_at ≡ some (64000043200 * second)
unfolding unix validate_challenge_locked verify_client process_client_verification
    normalize_system_settings find_release_locked sign_license_token is_rate_limited_locked
    equal_fold trim_space join one_of find_first filter_by lookup sort_slice
    evaluate_integrity_locked find_app_locked find_license_by_key_locked
    find_device_by_fingerprint_locked find_activation_locked active_device_count_locked new_device
    find_or_create_device_locked check_device check_token_device check_token_activation activate
    settings_locked granted_claims assess grant check_rate_limit check_challenge require_app
    find_subject check_license check_token_app release_business_manifest_sha256
    db_encryption_status_failed business_integrity_failed capability_policies_for_app_locked
    sign_capability_policy_bundle signed_capability_policy_bundle_locked
expiry = refl

timely : no_later client_env.now (unix_time (unix (64000043200 * second))) ≡ true
unfolding unix is_allowed
timely = refl

kept_reply-is_allowed_example :
    is_allowed client_env options (keep_result client_env reply (err "no cache")) "render"
    ≡ sdk_has_entitlement reply.entitlements "render"
kept_reply-is_allowed_example =
    kept_reply-is_allowed signing_env signing_server request activation reply replied reply_allows
      client_env options (err "no cache") "render" (64000043200 * second) refl
      (codec_for-IsLawful claims key (2 ∷ [])) visible key_parsed same_app expiry timely

has_key : is_empty options.public_key ≡ false
has_key = refl

is_allowed-IsOffline_example :
    (is_allowed client_env options (keep_result client_env reply (err "no cache")) "render" ≡ true)
    ↔ IsOffline client_env options (keep_result client_env reply (err "no cache")) "render"
is_allowed-IsOffline_example =
    is_allowed-IsOffline client_env options (keep_result client_env reply (err "no cache")) "render"
      has_key

-- Heartbeats

abbrev debugged : Heartbeat
debugged = record {
  app_id = "visionflow";
  platform = "";
  license_token = token;
  install_id = "inst";
  app_version = "1.1";
  integrity = some (integrity true);
}

-- Sequences of requests

abbrev verify_body : VerifyBody
verify_body = record {
  app_id = "visionflow";
  platform = "";
  license_key = "KEY";
  license_token = "";
  challenge_id = "chg_1";
  nonce = "nonce";
  device = device_info;
  integrity = integrity false;
}

abbrev revoked_server : Server
revoked_server = record active_server {
  contents = record active_server.contents {
    licenses = record license { status = "revoked" } ∷ [];
  };
}

abbrev reached : Server
reached =
    serve early_env (serve early_env revoked_server request (heartbeat debugged)) request
      (verification verify_body)

abbrev path : Reaches revoked_server reached
path =
    answers early_env request (verification verify_body)
      (answers early_env request (heartbeat debugged) here)

reaches-Frame_example : Frame revoked_server reached
reaches-Frame_example = reaches-Frame path

found_revoked :
    find_license_by_id_locked revoked_server "lic_1" ≡ some (record license { status = "revoked" })
unfolding find_first find_license_by_id_locked
found_revoked = refl

abbrev token_request : ClientVerificationInput
token_request = record activation { license_key = ""; license_token = token }

later_token :
    verify_license_token early_env.crypto revoked_server.public_key (early_env.time 1569) token true
    ≡ valid example_claims
unfolding verify_license_token split_on
later_token = refl

reaches-refused_example :
    ((handle_capability_check early_env reached "visionflow" token "render").1 ≢ decided decision)
    × (allows (process_client_verification early_env reached request token_request).1 ≡ false)
reaches-refused_example =
    reaches-refused revoked_server reached "lic_1" (record license { status = "revoked" }) path
      found_revoked (λ e. cc ((eq_iff "revoked" "active").1 e)) early_env token example_claims
      later_token refl "visionflow" "render" decision request token_request refl refl
