-- ===== src/Capability/Registry.antt =====
-- How internal/licensecore/server.go writes the capability policies of an app, and the bundle of decisions
-- that it signs for a client.
use Prim.Native.String.{compare}
use text.Mathlib.Text.{is_lt, starts_with}
use license_guard.Base.{
  ℕ, ◌+◌, String, List, [], ◌∷◌, ◌++◌, map, Bool, ◌||◌, Option, none, some, if◌then◌else◌, ◌==◌,
  to_lower, trim_space, find_first, update_first, filter_by, sort_slice, is_some, Result, ok, ◌>>=◌,
}
use license_guard.Types.{
  CapabilityPolicy, CapabilityPolicyBundle, SignedCapabilityPolicyBundle, Time, is_zero, unix,
}
use license_guard.Token.{Bytes, Crypto}
use license_guard.Server.{Server, Env}
use license_guard.Server.Find.{is_policy}
use license_guard.Capability.{normalize_capability_policy_mode, capability_decision}

-- isVisionFlowAppKey
unfoldable pub is_vision_flow_app_key : String → Bool
is_vision_flow_app_key app_id =
    let id = to_lower (trim_space app_id) in
    id == "app_visionflow_windows_prod" || starts_with id "app_visionflow_"

default_policy : String → Time → String → String → String → String → CapabilityPolicy
default_policy app_id now capability entitlement mode message = record {
  app_id = app_id;
  capability = capability;
  required_entitlement = entitlement;
  mode = mode;
  message = message;
  limits_json = some [];
  created_at = now;
  updated_at = now;
}

-- defaultVisionFlowCapabilityPolicies
unfoldable pub default_vision_flow_capability_policies : String → Time → List CapabilityPolicy
unfolding default_policy
default_vision_flow_capability_policies app_id now =
    policy "automation.run" "visionflow.automation" "block" "当前 License 未包含自动化任务能力"
    ∷ policy "automation.resume" "visionflow.automation" "block" "当前 License 未包含任务恢复能力"
    ∷ policy "automation.batch" "visionflow.batch" "block" "当前 License 未包含批量任务能力"
    ∷ policy "script.execute" "visionflow.automation" "block" "当前 License 未包含脚本执行能力"
    ∷ policy "export.video" "visionflow.export" "watermark" "当前 License 未包含无水印导出能力"
    ∷ policy "plugin.install" "visionflow.plugin" "block" "当前 License 未包含插件安装能力"
    ∷ policy "update.skipMandatory" "visionflow.update" "block" "当前 License 不允许跳过强制更新"
    ∷ []
  where
    policy : String → String → String → String → CapabilityPolicy
    policy = default_policy app_id now

-- `if policy.CreatedAt.IsZero() { policy.CreatedAt = policy.UpdatedAt }`
abbrev pub with_created_at : Time → CapabilityPolicy → CapabilityPolicy
with_created_at created p = record p {
  created_at = if is_zero created then p.updated_at else created;
}

-- The policy as upsertCapabilityPoliciesLocked stores it, but for its time of creation.
unfoldable pub normal_policy : CapabilityPolicy → CapabilityPolicy
normal_policy p = record p {
  mode = normalize_capability_policy_mode p.mode;
  limits_json = elim p.limits_json [ none ↦ some [] | some limits ↦ some limits ];
}

-- One round of the loop of upsertCapabilityPoliciesLocked.
unfoldable pub upsert_policy : List CapabilityPolicy → CapabilityPolicy → List CapabilityPolicy
unfolding normal_policy
upsert_policy stored policy =
    let p = normal_policy policy in
    if is_some (find_first (is_policy p.app_id p.capability) stored)
    then update_first (is_policy p.app_id p.capability) (λ old. with_created_at old.created_at p)
        stored
    else stored ++ with_created_at p.created_at p ∷ []

unfoldable pub upsert_policies :
    List CapabilityPolicy → List CapabilityPolicy → List CapabilityPolicy
unfolding upsert_policy
upsert_policies stored [] = stored
upsert_policies stored (p ∷ ps) = upsert_policies (upsert_policy stored p) ps

-- upsertCapabilityPoliciesLocked
unfoldable pub upsert_capability_policies_locked : Server → List CapabilityPolicy → Server
unfolding upsert_policies
upsert_capability_policies_locked s policies = record s {
  contents = record s.contents {
    capability_policies = upsert_policies s.contents.capability_policies policies;
  };
}

-- The loop of ensureDefaultVisionFlowPoliciesLocked: the policies and the number added.
unfoldable pub ensure_policies :
    String → List CapabilityPolicy → List CapabilityPolicy → List CapabilityPolicy × ℕ
ensure_policies app_id stored [] = (stored, 0)
ensure_policies app_id stored (p ∷ ps) =
    let kept = ensure_policies app_id stored ps in
    let grown = ensure_policies app_id (stored ++ p ∷ []) ps in
    if is_some (find_first (is_policy app_id p.capability) stored)
    then kept
    else (grown.0, 1 + grown.1)

-- ensureDefaultVisionFlowPoliciesLocked
unfoldable pub ensure_default_vision_flow_policies_locked : Server → String → Time → Server × ℕ
unfolding ensure_policies
ensure_default_vision_flow_policies_locked s app_id now =
    let (policies, added) =
      ensure_policies app_id s.contents.capability_policies
        (default_vision_flow_capability_policies app_id now) in
    (record s { contents = record s.contents { capability_policies = policies } }, added)

-- capabilityPoliciesForAppLocked
unfoldable pub capability_policies_for_app_locked : Server → String → List CapabilityPolicy
capability_policies_for_app_locked s app_id =
    sort_slice (λ p q. is_lt (compare p.capability q.capability))
      (filter_by (λ p. p.app_id == app_id) s.contents.capability_policies)

-- signCapabilityPolicyBundle
unfoldable pub sign_capability_policy_bundle :
    Crypto → Bytes → CapabilityPolicyBundle → Result String
sign_capability_policy_bundle c private_key bundle = do
  payload ← c.marshal_bundle bundle
  ok (c.encode (c.sign private_key payload))

-- The bundle that signedCapabilityPolicyBundleLocked signs.
abbrev pub policy_bundle :
    Env
    → List CapabilityPolicy
    → String
    → String
    → String
    → List String
    → Time
    → CapabilityPolicyBundle
policy_bundle env policies app_id license_id device_id entitlements expires_at = record {
  app_id = app_id;
  license_id = license_id;
  device_id = device_id;
  entitlements = entitlements;
  decisions = map (λ p. capability_decision (some p) entitlements p.capability) policies;
  issued_at = unix (env.time 2241);
  expires_at = unix expires_at;
}

unfoldable pub sign_policies :
    Env → Bytes → CapabilityPolicyBundle → Result (Option SignedCapabilityPolicyBundle)
sign_policies env private_key bundle = do
  signature ← sign_capability_policy_bundle env.crypto private_key bundle
  ok (some (record { alg = "EdDSA"; key_type = "Ed25519"; bundle = bundle; signature = signature }))

-- signedCapabilityPolicyBundleLocked
unfoldable pub signed_capability_policy_bundle_locked :
    Env
    → Server
    → String
    → String
    → String
    → List String
    → Time
    → Result (Option SignedCapabilityPolicyBundle)
unfolding sign_policies
signed_capability_policy_bundle_locked env s app_id license_id device_id entitlements expires_at =
    elim (capability_policies_for_app_locked s app_id) [
      | [] ↦ ok none
      | p ∷ ps ↦
          sign_policies env s.private_key
            (policy_bundle env (p ∷ ps) app_id license_id device_id entitlements expires_at)
    ]
