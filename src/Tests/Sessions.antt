-- ===== src/Tests/Sessions.antt =====
-- The theorems on the endpoints for clients with a token (internal/licensecore/server.go) at concrete data.
use license_guard.Token.{verify_license_token}
use license_guard.Capability.{
  normalize_capability_policy_mode, valid_capability_policy_mode, has_entitlement,
  capability_decision,
}
use license_guard.Server.Find.{
  find_license_by_id_locked, find_device_by_id_locked, find_activation_locked,
  find_capability_policy_locked,
}
use license_guard.Base.{
  false, find_first, equal_fold, trim_space, one_of, split_on, true, ◌≡◌, refl,
}
use license_guard.Types.{unix}
use license_guard.Base.{◌*◌, String, [], ◌∷◌, none, ◌≢◌}
use license_guard.Types.{Activation, CapabilityDecision, Time, second}
use license_guard.Server.{Server, Env}
use license_guard.Session.{decided, deactivated, handle_capability_check, handle_deactivate}
use license_guard.Session.Deactivation.{handle_deactivate-revokes}
use license_guard.Verification.Monad.{allows}
use license_guard.Verification.Licensing.{ClientVerificationInput}
use license_guard.Verification.{process_client_verification}
use license_guard.Session.Revocation.{IsAllowed, handle_capability_check-IsAllowed}
use license_guard.Tests.Codec.{codec}
use license_guard.Tests.Fixtures.{env, server, contents, policy, activation as asked, request}

-- A time at which the token of the codec has not expired.
abbrev pub early : Time
early = 62135596900 * second

abbrev pub early_env : Env
early_env = record env { time = λ line. early; crypto = codec }

abbrev pub token : String
token = "11111110.111010.110"

abbrev activation : Activation
activation = record {
  id = "act_1";
  license_id = "lic_1";
  device_id = "dev_1";
  app_id = "visionflow";
  activation_status = "active";
  activated_at = 0;
  last_verified_at = 0;
  deactivated_at = none;
}

abbrev pub active_server : Server
active_server = record server {
  contents = record contents {
    activations = activation ∷ [];
    capability_policies = policy "render" "render" ∷ [];
  };
}

abbrev pub decision : CapabilityDecision
decision = record {
  capability = "render";
  required_entitlement = "render";
  configured_mode = "block";
  effective_mode = "allow";
  allowed = true;
  reason = "";
  message = "";
  limits_json = none;
}

granted_render :
    (handle_capability_check early_env active_server "" token " render").1 ≡ decided decision
unfolding unix verify_license_token equal_fold trim_space one_of split_on find_first
    normalize_capability_policy_mode valid_capability_policy_mode has_entitlement
    capability_decision find_license_by_id_locked find_activation_locked
    find_capability_policy_locked handle_capability_check
granted_render = refl

handle_capability_check-IsAllowed_example :
    IsAllowed early_env active_server "" token (trim_space " render")
handle_capability_check-IsAllowed_example =
    handle_capability_check-IsAllowed early_env active_server "" token " render" decision
      granted_render refl

confirmed :
    (handle_deactivate early_env active_server "visionflow" token "").1 ≡ deactivated true early
unfolding unix verify_license_token split_on find_first find_device_by_id_locked
    find_activation_locked handle_deactivate
confirmed = refl

abbrev by_the_token : ClientVerificationInput
by_the_token = record asked { license_key = ""; license_token = token; is_activation = false }

handle_deactivate-revokes_example :
    let s' = (handle_deactivate early_env active_server "visionflow" token "").0 in
    ((handle_capability_check early_env s' "" token "render").1 ≢ decided decision)
    × (allows (process_client_verification early_env s' request by_the_token).1 ≡ false)
handle_deactivate-revokes_example =
    handle_deactivate-revokes early_env active_server "visionflow" token "" true early confirmed ""
      "render" decision request by_the_token refl refl
