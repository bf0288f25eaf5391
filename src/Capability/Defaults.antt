-- ===== src/Capability/Defaults.antt =====
-- The default policies of a VisionFlow app (internal/licensecore/server.go:
-- ensureDefaultVisionFlowPoliciesLocked): they are added where they are missing, and change nothing else.
use license_guard.Base.{
  String, List, [], ◌∷◌, ◌++◌, none, some, find_first, is_some, ◌≡◌, ap, All, arith, refl, sym,
  subst, ◌∙◌, eq_iff, eq_refl, Option-cases, inl, inr, Bool-cases, find_first-append,
  find_first-append_some,
}
use license_guard.Types.{CapabilityPolicy, Time}
use license_guard.Server.{Server}
use license_guard.Server.Find.{is_policy, find_capability_policy_locked}
use license_guard.Capability.Writes.{find_policy}
use license_guard.Capability.Registry.{
  default_vision_flow_capability_policies, ensure_policies,
  ensure_default_vision_flow_policies_locked,
}

ensure_policies-keeps :
    (app_id b d : String) (stored ps : List CapabilityPolicy) {p : CapabilityPolicy}
    → find_policy b d stored ≡ some p
    → find_policy b d (ensure_policies app_id stored ps).0 ≡ some p
unfolding ensure_policies
ensure_policies-keeps app_id b d stored [] h = h
ensure_policies-keeps app_id b d stored (q ∷ ps) {p} h =
    elim (Bool-cases (is_some (find_policy app_id q.capability stored))) [
      | inl e ↦ rw e (ensure_policies-keeps app_id b d stored ps h)
      | inr e ↦ rw e (
          ensure_policies-keeps app_id b d (stored ++ q ∷ []) ps
            (find_first-append_some (is_policy b d) stored (q ∷ []) h))
    ]

-- The app has a policy for the capability of `p`.
abbrev pub IsRegistered : String → List CapabilityPolicy → CapabilityPolicy → Type 0
IsRegistered app_id stored p =
    (q : CapabilityPolicy) × (find_policy app_id p.capability stored ≡ some q)

abbrev IsOf : String → CapabilityPolicy → Type 0
IsOf app_id p = p.app_id ≡ app_id

IsRegistered-added :
    (app_id : String) (stored : List CapabilityPolicy) (q : CapabilityPolicy)
    → q.app_id ≡ app_id
    → IsRegistered app_id (stored ++ q ∷ []) q
unfolding find_first
IsRegistered-added app_id stored q own =
    elim (Option-cases (find_policy app_id q.capability stored)) [
      | inl e ↦ (
        q,
        find_first-append _ stored (q ∷ []) e
            ∙ ground (arith, eq_iff q.app_id app_id, eq_refl q.capability),
      )
      | inr (old, e) ↦ (old, find_first-append_some _ stored (q ∷ []) e)
    ]

ensure_policies-found :
    (app_id : String) (stored ps : List CapabilityPolicy) (q : CapabilityPolicy)
    {p : CapabilityPolicy}
    → find_policy app_id q.capability stored ≡ some p
    → (ensure_policies app_id stored (q ∷ ps)).0 ≡ (ensure_policies app_id stored ps).0
unfolding ensure_policies
ensure_policies-found app_id stored ps q e = rw e

ensure_policies-missing :
    (app_id : String) (stored ps : List CapabilityPolicy) (q : CapabilityPolicy)
    → find_policy app_id q.capability stored ≡ none
    → (ensure_policies app_id stored (q ∷ ps)).0 ≡ (ensure_policies app_id (stored ++ q ∷ []) ps).0
unfolding ensure_policies
ensure_policies-missing app_id stored ps q e = rw e

ensure_policies-IsRegistered :
    (app_id : String) (stored ps : List CapabilityPolicy)
    → All (IsOf app_id) ps
    → All (IsRegistered app_id (ensure_policies app_id stored ps).0) ps
ensure_policies-IsRegistered app_id stored [] own = tt
ensure_policies-IsRegistered app_id stored (q ∷ ps) (own, rest) =
    elim (Option-cases (find_policy app_id q.capability stored)) [
      | inl e ↦
          let (p, h) = IsRegistered-added app_id stored q own in
          subst (λ r. All (IsRegistered app_id r) (q ∷ ps))
            (sym (ensure_policies-missing app_id stored ps q e))
            (
              (p, ensure_policies-keeps app_id _ _ (stored ++ q ∷ []) ps h),
              ensure_policies-IsRegistered app_id (stored ++ q ∷ []) ps rest,
            )
      | inr (old, e) ↦
          subst (λ r. All (IsRegistered app_id r) (q ∷ ps))
            (sym (ensure_policies-found app_id stored ps q e))
            (
              (old, ensure_policies-keeps app_id _ _ stored ps e),
              ensure_policies-IsRegistered app_id stored ps rest,
            )
    ]

ensure_policies-registered :
    (app_id : String) (stored ps : List CapabilityPolicy)
    → All (IsRegistered app_id stored) ps
    → ensure_policies app_id stored ps ≡ (stored, 0)
unfolding ensure_policies
ensure_policies-registered app_id stored [] h = refl
ensure_policies-registered app_id stored (q ∷ ps) ((p, e), h) =
    rw e (ensure_policies-registered app_id stored ps h)

defaults-IsOf :
    (app_id : String) (now : Time)
    → All (IsOf app_id) (default_vision_flow_capability_policies app_id now)
unfolding default_vision_flow_capability_policies
defaults-IsOf app_id now = (refl, (refl, (refl, (refl, (refl, (refl, (refl, tt)))))))

-- The default policies of two moments have the same keys.
defaults-IsRegistered :
    (app_id : String) (now later : Time) (stored : List CapabilityPolicy)
    → All (IsRegistered app_id stored) (default_vision_flow_capability_policies app_id now)
    → All (IsRegistered app_id stored) (default_vision_flow_capability_policies app_id later)
unfolding default_vision_flow_capability_policies
defaults-IsRegistered app_id now later stored h = h

-- Afterwards the app has a policy for each of the default capabilities; a policy that was found
-- before, of any app, is found as it was; and a second run, at any time, adds nothing.
pub ensure_default_vision_flow_policies :
    (s : Server) (app_id : String) (now later : Time)
    → let s' = (ensure_default_vision_flow_policies_locked s app_id now).0 in
      All
        (IsRegistered app_id s'.contents.capability_policies)
        (default_vision_flow_capability_policies app_id now)
      × ((b d : String) (p : CapabilityPolicy)
          → find_capability_policy_locked s b d ≡ some p
          → find_capability_policy_locked s' b d ≡ some p)
      × ((ensure_default_vision_flow_policies_locked s' app_id later).1 ≡ 0)
unfolding ensure_default_vision_flow_policies_locked find_capability_policy_locked
ensure_default_vision_flow_policies s app_id now later =
    let stored = s.contents.capability_policies in
    let defaults = default_vision_flow_capability_policies app_id now in
    let all = ensure_policies-IsRegistered app_id stored defaults (defaults-IsOf app_id now) in
    (
      all,
      λ b d p h. ensure_policies-keeps app_id b d stored defaults h,
      ap (λ r. r.1)
          (ensure_policies-registered app_id _ _ (defaults-IsRegistered app_id now later _ all)),
    )
