-- ===== src/Tests/Registry.antt =====
-- The theorems on capabilities, releases and settings (internal/licensecore) at concrete data.
use license_guard.Settings.{normalize_system_settings}
use license_guard.Release.{
  find_release_locked, latest_release_locked, release_in_rollout, update_info_locked,
}
use license_guard.Capability.{has_entitlement, capability_decision}
use license_guard.Release.Version.{compare_version_strings}
use license_guard.Server.Find.{find_capability_policy_locked}
use license_guard.Capability.Registry.{
  default_vision_flow_capability_policies, normal_policy, upsert_policy, upsert_policies,
  ensure_default_vision_flow_policies_locked,
}
use license_guard.Base.{find_first, filter_by, sort_slice, trim_space, fields_func, true, ◌≡◌, refl}
use license_guard.Base.{
  pos, leb_ℤ, ltb_ℤ, String, [], ◌∷◌, ◌&&◌, none, some, if◌then◌else◌, ◌↔◌, All, arith, ◌==◌,
}
use license_guard.Types.{CapabilityPolicy, UpdateInfo, Time}
use license_guard.Capability.Decisions.{IsEntitled, capability_decision-IsEntitled}
use license_guard.Capability.Registry.{with_created_at}
use license_guard.Capability.Writes.{
  find_policy, find_policy-upsert_policy, HasDistinctKeys, upsert_policies-HasDistinctKeys,
}
use license_guard.Capability.Defaults.{IsRegistered, ensure_default_vision_flow_policies}
use license_guard.Release.{is_release}
use license_guard.Release.Version.Order.{
  neg, compare_version_strings-neg, compare_version_strings_trans,
}
use license_guard.Release.Search.{find_release_locked-eq, latest_release_locked-IsNewest, IsNewest}
use license_guard.Release.Rollout.{release_in_rollout_mono, required_update_for_all}
use license_guard.Release.Offer.{IsOffer, update_info_locked-IsOffer}
use license_guard.Settings.{default_system_settings}
use license_guard.Settings.Bounds.{
  InRange, normalize_system_settings-InRange, normalize_system_settings-eq,
}
use license_guard.Tests.Fixtures.{env, server, policy, release, now}

-- Capabilities

capability_decision-IsEntitled_example :
    ((capability_decision (some (policy "render" "render")) ("render" ∷ []) "render").allowed
      ≡ true)
    ↔ IsEntitled (some (policy "render" "render")) ("render" ∷ [])
capability_decision-IsEntitled_example =
    capability_decision-IsEntitled (some (policy "render" "render")) ("render" ∷ []) "render"

entitled :
    (capability_decision (some (policy "render" "render")) ("render" ∷ []) "render").allowed ≡ true
unfolding trim_space has_entitlement capability_decision
entitled = refl

find_policy-upsert_policy_example :
    let stored = policy "render" "" ∷ [] in
    let p = policy "render" "pro" in
    let created : Time = elim (find_policy p.app_id p.capability stored) [
      | none ↦ p.created_at
      | some old ↦ old.created_at
    ] in
    find_policy "visionflow" "render" (upsert_policy stored p) ≡ (
      if p.app_id == "visionflow" && p.capability == "render"
      then some (with_created_at created (normal_policy p))
      else find_policy "visionflow" "render" stored)
find_policy-upsert_policy_example =
    find_policy-upsert_policy (policy "render" "" ∷ []) (policy "render" "pro") "visionflow"
      "render"

upsert_policies-HasDistinctKeys_example :
    HasDistinctKeys
      (upsert_policies [] (policy "render" "" ∷ policy "export" "" ∷ policy "render" "pro" ∷ []))
upsert_policies-HasDistinctKeys_example =
    upsert_policies-HasDistinctKeys []
      (policy "render" "" ∷ policy "export" "" ∷ policy "render" "pro" ∷ []) tt

ensure_default_vision_flow_policies_example :
    let s' = (ensure_default_vision_flow_policies_locked server "visionflow" now).0 in
    All
      (IsRegistered "visionflow" s'.contents.capability_policies)
      (default_vision_flow_capability_policies "visionflow" now)
    × ((b d : String) (p : CapabilityPolicy)
        → find_capability_policy_locked server b d ≡ some p
        → find_capability_policy_locked s' b d ≡ some p)
    × ((ensure_default_vision_flow_policies_locked s' "visionflow" now).1 ≡ 0)
ensure_default_vision_flow_policies_example =
    ensure_default_vision_flow_policies server "visionflow" now now

-- Versions and releases

compare_version_strings-neg_example :
    compare_version_strings "1.10" "1.9-beta" ≡ neg (compare_version_strings "1.9-beta" "1.10")
compare_version_strings-neg_example = compare_version_strings-neg "1.10" "1.9-beta"

below : ltb_ℤ (compare_version_strings "1.9" "1.10") (pos 0) ≡ true
unfolding fields_func compare_version_strings
below = refl

not_above : leb_ℤ (compare_version_strings "1.10" "2") (pos 0) ≡ true
unfolding fields_func compare_version_strings
not_above = refl

compare_version_strings_trans_example : ltb_ℤ (compare_version_strings "1.9" "2") (pos 0) ≡ true
compare_version_strings_trans_example =
    compare_version_strings_trans "1.9" "1.10" "2" below not_above

find_release_locked-eq_example :
    let matches = is_release "visionflow" "windows" "1.1" in
    find_release_locked server "visionflow" "windows" "1.1"
    ≡ (elim (find_first (λ r. matches r && r.status == "blocked") server.contents.releases) [
      | none ↦ find_first matches server.contents.releases
      | some r ↦ some r
    ])
find_release_locked-eq_example = find_release_locked-eq server "visionflow" "windows" "1.1"

latest : latest_release_locked server "visionflow" "windows" ≡ some (release "1.2" 12)
unfolding latest_release_locked filter_by sort_slice
latest = refl

latest_release_locked-IsNewest_example :
    IsNewest server.contents.releases "visionflow" "windows" (release "1.2" 12)
latest_release_locked-IsNewest_example =
    latest_release_locked-IsNewest server "visionflow" "windows" latest

in_rollout : release_in_rollout env "visionflow" "windows" "r" "dev_1" (pos 50) ≡ true
unfolding release_in_rollout
in_rollout = refl

release_in_rollout_mono_example :
    release_in_rollout env "visionflow" "windows" "r" "dev_1" (pos 60) ≡ true
release_in_rollout_mono_example =
    release_in_rollout_mono env "visionflow" "windows" "r" "dev_1" (pos 50) (pos 60) (ground arith)
      in_rollout

abbrev update : UpdateInfo
update = record {
  available = true;
  required = true;
  latest_version = "1.2";
  download_url = "";
  package_sha256 = "";
  release_notes = "";
}

offered : update_info_locked env server "visionflow" "windows" "1.1" "dev_1" ≡ some update
unfolding latest_release_locked update_info_locked filter_by sort_slice
offered = refl

update_info_locked-IsOffer_example :
    (update_info_locked env server "visionflow" "windows" "1.1" "dev_1" ≡ some update)
    ↔ IsOffer env server "visionflow" "windows" "1.1" "dev_1" update
update_info_locked-IsOffer_example =
    update_info_locked-IsOffer env server "visionflow" "windows" "1.1" "dev_1" update

required_update_for_all_example :
    update_info_locked env server "visionflow" "windows" "1.1" "dev_2" ≡ some update
required_update_for_all_example =
    required_update_for_all env server "visionflow" "windows" "1.1" "dev_1" "dev_2" update offered
      refl

-- Settings

normalize_system_settings-InRange_example : InRange (
    normalize_system_settings
      (record (default_system_settings now) { offline_grace_days = pos 99 })
      now)
normalize_system_settings-InRange_example =
    normalize_system_settings-InRange
      (record (default_system_settings now) { offline_grace_days = pos 99 }) now

defaults-InRange : InRange (default_system_settings now)
defaults-InRange = record {
  ttl_low = ground arith;
  ttl_high = ground arith;
  medium_low = ground arith;
  medium_high = ground arith;
  grace_low = ground arith;
  grace_high = ground arith;
  devices_low = ground arith;
  devices_high = ground arith;
  license_low = ground arith;
  license_high = ground arith;
  retention_low = ground arith;
  retention_high = ground arith;
}

normalize_system_settings-eq_example :
    normalize_system_settings (default_system_settings now) now ≡ default_system_settings now
normalize_system_settings-eq_example =
    normalize_system_settings-eq (default_system_settings now) now defaults-InRange refl
