-- ===== src/Capability.antt =====
-- Capability policies of internal/licensecore/server.go: how a policy decides a request, and how the
-- policies of an app are written (Capability/Registry).
pub mod Registry
pub mod Signing
pub mod Decisions
pub mod Writes
pub mod Defaults
use license_guard.Base.{
  ℕ, String, List, [], ◌∷◌, Bool, true, false, ◌||◌, ◌&&◌, not, Option, none, some, if◌then◌else◌,
  is_empty, ◌==◌, one_of, to_lower, trim_space, Result, ok, err, concat, any,
}
use license_guard.Types.{CapabilityPolicy, CapabilityDecision, Time}

-- normalizeCapabilityPolicyMode
unfoldable pub normalize_capability_policy_mode : String → String
normalize_capability_policy_mode mode =
    let cleaned = to_lower (trim_space mode) in if is_empty cleaned then "block" else cleaned

-- validCapabilityPolicyMode
unfoldable pub valid_capability_policy_mode : String → Bool
valid_capability_policy_mode mode =
    one_of mode ("allow" ∷ "block" ∷ "hide" ∷ "readonly" ∷ "degrade" ∷ "watermark" ∷ "warn" ∷ [])

-- normalizeCapabilityPolicy. The %q that the error puts round the mode is not modelled.
unfoldable pub normalize_capability_policy :
    String → CapabilityPolicy → Time → Result CapabilityPolicy
normalize_capability_policy app_id item now =
    let capability = trim_space item.capability in
    let required = trim_space item.required_entitlement in
    let mode = normalize_capability_policy_mode item.mode in
    if is_empty capability
    then err "capability is required"
    else if is_empty required
    then err "required_entitlement is required"
    else if not (valid_capability_policy_mode mode)
    then err (concat ("unsupported mode " ∷ item.mode ∷ []))
    else ok (record {
      app_id = app_id;
      capability = capability;
      required_entitlement = required;
      mode = mode;
      message = trim_space item.message;
      limits_json = elim item.limits_json [ none ↦ some [] | some limits ↦ some limits ];
      created_at = now;
      updated_at = now;
    })

-- hasEntitlement
unfoldable pub has_entitlement : List String → String → Bool
has_entitlement entitlements required =
    let wanted = trim_space required in
    if is_empty wanted then true else any (λ e. e == wanted) entitlements

-- The configured mode of a decision: one of the seven modes.
unfoldable pub decided_mode : String → String
decided_mode mode =
    let normal = normalize_capability_policy_mode mode in
    if not (valid_capability_policy_mode normal) then "block" else normal

-- capabilityDecision; the copy that cloneLimitsJSON makes is the value itself
unfoldable pub capability_decision :
    Option CapabilityPolicy → List String → String → CapabilityDecision
unfolding decided_mode
capability_decision none entitlements capability = record {
  capability = capability;
  required_entitlement = "";
  configured_mode = "block";
  effective_mode = "block";
  allowed = false;
  reason = "unknown_capability";
  message = "Capability is not registered";
  limits_json = none;
}
capability_decision (some policy) entitlements capability =
    let mode = decided_mode policy.mode in
    let decision : CapabilityDecision = record {
      capability = policy.capability;
      required_entitlement = policy.required_entitlement;
      configured_mode = mode;
      effective_mode = "";
      allowed = false;
      reason = "";
      message = policy.message;
      limits_json = policy.limits_json;
    } in
    if has_entitlement entitlements policy.required_entitlement
    then record decision { allowed = true; effective_mode = "allow" }
    else record decision {
      reason = "missing_entitlement";
      effective_mode = if mode == "allow" then "block" else mode;
    }
