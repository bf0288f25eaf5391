-- ===== src/Capability/Signing.antt =====
-- The signed decisions of an app (internal/licensecore/server.go, signedCapabilityPolicyBundleLocked).
use license_guard.Base.{
  String, List, [], ◌∷◌, Option, none, some, Result, ok, Result-cases, ◌≡◌, refl, arith, inl, inr,
  subst,
}
use license_guard.Types.{
  CapabilityPolicy, CapabilityPolicyBundle, SignedCapabilityPolicyBundle, Time,
}
use license_guard.Token.{Bytes, Crypto}
use license_guard.Server.{Server, Env}
use license_guard.Capability.Registry.{
  capability_policies_for_app_locked, sign_capability_policy_bundle, sign_policies, policy_bundle,
  signed_capability_policy_bundle_locked,
}

pub record IsSigned (c : Crypto) (private_key : Bytes) (app_id : String)
    (b : SignedCapabilityPolicyBundle) : Type 0 where
  pub made : sign_capability_policy_bundle c private_key b.bundle ≡ ok b.signature
  pub for_app : b.bundle.app_id ≡ app_id

sign_policies-IsSigned :
    (env : Env) (private_key : Bytes) (bundle : CapabilityPolicyBundle)
    {b : SignedCapabilityPolicyBundle}
    → sign_policies env private_key bundle ≡ ok (some b)
    → IsSigned env.crypto private_key bundle.app_id b
unfolding sign_policies
sign_policies-IsSigned env private_key bundle {b} h =
    elim (Result-cases (sign_capability_policy_bundle env.crypto private_key bundle)) [
      | inr (e, bad) ↦ absurd (ground (arith, h, bad))
      | inl (signature, good) ↦ from signature good (rw good at h)
    ]
  where
    from :
        (signature : String)
        → sign_capability_policy_bundle env.crypto private_key bundle ≡ ok signature
        → Path
            (Result (Option SignedCapabilityPolicyBundle))
            (ok (
              some (record {
                alg = "EdDSA";
                key_type = "Ed25519";
                bundle = bundle;
                signature = signature;
              })))
            (ok (some b))
        → IsSigned env.crypto private_key bundle.app_id b
    from signature good e =
        let made : SignedCapabilityPolicyBundle = record {
          alg = "EdDSA";
          key_type = "Ed25519";
          bundle = bundle;
          signature = signature;
        } in
        let same : made ≡ b = ground (arith, e) in
        subst (IsSigned env.crypto private_key bundle.app_id) same
          (record { made = good; for_app = refl })

pub signed_capability_policy_bundle_locked-IsSigned :
    (env : Env) (s : Server) (app_id license_id device_id : String) (entitlements : List String)
    (expires_at : Time) {b : SignedCapabilityPolicyBundle}
    → signed_capability_policy_bundle_locked env s app_id license_id device_id entitlements
        expires_at
      ≡ ok (some b)
    → IsSigned env.crypto s.private_key app_id b
unfolding signed_capability_policy_bundle_locked
signed_capability_policy_bundle_locked-IsSigned env s app_id license_id device_id entitlements
      expires_at {b} =
    of_policies (capability_policies_for_app_locked s app_id)
  where
    of_policies :
        (policies : List CapabilityPolicy)
        → Path
            (Result (Option SignedCapabilityPolicyBundle))
            (elim policies [
              | [] ↦ ok none
              | p ∷ ps ↦
                  sign_policies env s.private_key
                    (policy_bundle env (p ∷ ps) app_id license_id device_id entitlements expires_at)
            ])
            (ok (some b))
        → IsSigned env.crypto s.private_key app_id b
    of_policies [] h = absurd (ground (arith, h))
    of_policies (p ∷ ps) h =
        sign_policies-IsSigned env s.private_key
          (policy_bundle env (p ∷ ps) app_id license_id device_id entitlements expires_at) h
