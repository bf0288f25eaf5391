-- ===== src/Admin/Policies.antt =====
-- The capability policies that administrators write (internal/licensecore/server.go: handleCapabilityPolicies on a
-- decoded body, handleVisionFlowCapabilityDefaults).
use license_guard.Base.{
  pos, String, List, [], ◌∷◌, not, none, some, Result, ok, err, ◌>>=◌, if◌then◌else◌, is_some,
  length,
}
use license_guard.Types.{CapabilityPolicy, Time, integer}
use license_guard.Server.{Server, Env, Request}
use license_guard.Server.Find.{find_app_locked}
use license_guard.Capability.{normalize_capability_policy}
use license_guard.Capability.Registry.{
  upsert_capability_policies_locked, ensure_default_vision_flow_policies_locked,
  capability_policies_for_app_locked,
}
use license_guard.Audit.{audit_locked}
use license_guard.Admin.{AdminReply, failure, policies, save_then}

-- The loop over the items, which the first bad one ends.
unfoldable pub normalize_items :
    String → Time → List CapabilityPolicy → Result (List CapabilityPolicy)
normalize_items app_id now [] = ok []
normalize_items app_id now (item ∷ items) = do
  policy ← normalize_capability_policy app_id item now
  rest ← normalize_items app_id now items
  ok (policy ∷ rest)

-- handleCapabilityPolicies with GET
unfoldable pub list_policies : Server → String → Server × AdminReply
list_policies s app_id =
    if not (is_some (find_app_locked s app_id))
    then (s, failure 404 "APP_NOT_FOUND" "app not found")
    else (s, policies (capability_policies_for_app_locked s app_id) none)

-- The second part of the handler, with the lock held.
unfoldable pub store_policies :
    Env → Server → Request → String → String → List CapabilityPolicy → Server × AdminReply
unfolding save_then
store_policies env s r app_id admin_id items =
    let written = upsert_capability_policies_locked s items in
    if not (is_some (find_app_locked s app_id))
    then (s, failure 404 "APP_NOT_FOUND" "app not found")
    else save_then env (policies (capability_policies_for_app_locked written app_id) none) (
        audit_locked env 728 admin_id "capability_policy.upsert" "app" app_id r
          (some (("count", integer (pos (length items))) ∷ [])) written)

-- handleCapabilityPolicies with PUT or PATCH
unfoldable pub write_policies :
    Env → Server → Request → String → String → List CapabilityPolicy → Server × AdminReply
unfolding store_policies normalize_items
write_policies env s r app_id admin_id [] = (s, failure 400 "INVALID_REQUEST" "items are required")
write_policies env s r app_id admin_id (item ∷ items) =
    elim (normalize_items app_id (env.time 709) (item ∷ items)) [
      | err e ↦ (s, failure 400 "INVALID_POLICY" e)
      | ok normal ↦ store_policies env s r app_id admin_id normal
    ]

-- handleVisionFlowCapabilityDefaults
unfoldable pub handle_vision_flow_capability_defaults :
    Env → Server → Request → String → String → Server × AdminReply
unfolding save_then
handle_vision_flow_capability_defaults env s r app_id admin_id =
    let (written, added) = ensure_default_vision_flow_policies_locked s app_id (env.time 742) in
    if not (is_some (find_app_locked s app_id))
    then (s, failure 404 "APP_NOT_FOUND" "app not found")
    else save_then env (policies (capability_policies_for_app_locked written app_id) (some added)) (
        audit_locked env 751 admin_id "capability_policy.seed_visionflow_defaults" "app" app_id r
          (some (("added", integer (pos added)) ∷ [])) written)
