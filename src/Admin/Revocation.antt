-- ===== src/Admin/Revocation.antt =====
-- What the revocation of a license does to its clients (internal/licensecore/server.go, handleLicenseAction).
use license_guard.Base.{
  String, [], ◌∷◌, true, false, none, some, ◌≡◌, ◌≢◌, refl, sym, ◌∙◌, ap, subst, arith, Bool-cases,
  Option-cases, inl, inr, eq_iff, split_on, is_empty, find_first-update_first, find_first-holds,
  ◌==◌, one_of,
}
use license_guard.Types.{License, LicenseTokenClaims, CapabilityDecision, VerifyResponse}
use license_guard.Token.{valid, verify_license_token}
use license_guard.Token.RoundTrip.{verify_license_token-valid}
use license_guard.Server.{Server, Env, Request, save_locked}
use license_guard.Server.Find.{find_license_by_id_locked, has_license_id}
use license_guard.Session.{decided, handle_capability_check}
use license_guard.Session.Revocation.{handle_capability_check-license}
use license_guard.Verification.Monad.{verify, allows}
use license_guard.Verification.Licensing.{ClientVerificationInput, Subject}
use license_guard.Verification.{process_client_verification}
use license_guard.Verification.Soundness.{Names, by_key, by_token}
use license_guard.Verification.Granted.{process_client_verification-IsGranted, allows-verify}
use license_guard.Audit.{audit_locked}
use license_guard.Admin.{
  AdminReply, license, save_then, act_on_license, change_license, license_action,
  handle_license_action, by_parts,
}

-- The server knows the license as one that is not active.
abbrev pub IsInactive : Server → Server → String → Type 0
IsInactive s s' license_id =
    (l : License) × (find_license_by_id_locked s' license_id ≡ some l)
    × (l.status ≢ "active")
    × (s'.public_key ≡ s.public_key)

change_license-IsInactive :
    (env : Env) (s : Server) (r : Request) (license_id admin_id name : String) {l : License}
    → find_license_by_id_locked s license_id ≡ some l
    → IsInactive s
        (save_locked env (
          audit_locked env 1001 admin_id name "license" license_id r none
            (change_license env license_id "revoke" s))).0
        license_id
unfolding save_locked audit_locked change_license find_license_by_id_locked
change_license-IsInactive env s r license_id admin_id name {l} h = (
  act_on_license "revoke" (env.time 995) l,
  find_first-update_first (has_license_id license_id) (act_on_license "revoke" (env.time 995))
      s.contents.licenses h (find_first-holds (has_license_id license_id) s.contents.licenses h),
  (λ e. cc ((eq_iff "revoked" "active").1 e)),
  refl,
)

save_then-server :
    (env : Env) (reply : AdminReply) (s : Server)
    → (save_then env reply s).0 ≡ (save_locked env s).0
unfolding save_then
save_then-server env reply s = ground arith

license_action-IsInactive :
    (env : Env) (s : Server) (r : Request) (license_id admin_id : String) {l : License}
    → (license_action env s r license_id "revoke" admin_id).1 ≡ license l
    → IsInactive s (license_action env s r license_id "revoke" admin_id).0 license_id
unfolding license_action one_of
license_action-IsInactive env s r license_id admin_id h =
    elim (Option-cases (find_license_by_id_locked s license_id)) [
      | inl e ↦ absurd (ground (arith, e))
      | inr (l, e) ↦ rw e (
          subst (λ x. IsInactive s x license_id) (sym (save_then-server env _ _))
            (change_license-IsInactive env s r license_id admin_id _ e))
    ]

handle_license_action-eq :
    (env : Env) (s : Server) (r : Request) (tail license_id action admin_id : String) {l : License}
    → split_on b'/' tail ≡ license_id ∷ action ∷ []
    → (handle_license_action env s r tail admin_id).1 ≡ license l
    → handle_license_action env s r tail admin_id
      ≡ license_action env s r license_id action admin_id
unfolding handle_license_action by_parts
handle_license_action-eq env s r tail license_id action admin_id e h =
    elim (Bool-cases (r.method == "POST")) [
      | inl post ↦ rw (post, e)
      | inr other ↦ absurd (ground (arith, other))
    ]

-- A client that is let run by a token has the license that the token names, and it is active.
token-license :
    (env : Env) (s : Server) (r : Request) (input : ClientVerificationInput) (v : VerifyResponse)
    → (process_client_verification env s r input).1 ≡ verify v
    → v.allowed ≡ true
    → is_empty input.license_key ≡ true
    → (c : LicenseTokenClaims) × (verify_license_token env.crypto s.public_key
          (env.time 1569)
          input.license_token
          true
        ≡ valid c)
      × (l : License) × (find_license_by_id_locked s c.license_id ≡ some l)
      × (l.status ≡ "active")
token-license env s r input v h allowed no_key =
    let granted = process_client_verification-IsGranted env s r input v h allowed in
    by granted.licensed.names granted.licensed.license_active
  where
    by :
        {subject : Subject}
        → Names env s input subject
        → subject.license.status ≡ "active"
        → (c : LicenseTokenClaims) × (verify_license_token env.crypto s.public_key
              (env.time 1569)
              input.license_token
              true
            ≡ valid c)
          × (l : License) × (find_license_by_id_locked s c.license_id ≡ some l)
          × (l.status ≡ "active")
    by (by_key given found read) active = absurd (ground arith)
    by {subject} (by_token c token found read) active = (c, token, subject.license, found, active)

module _ (env : Env) (s s' : Server) (license_id license_token : String) (c : LicenseTokenClaims)
    (inactive : IsInactive s s' license_id) (of_license : c.license_id ≡ license_id)
    (token : verify_license_token env.crypto s.public_key (env.time 1569) license_token true
      ≡ valid c) where
  found_inactive :
      (c' : LicenseTokenClaims) (l : License)
      → c' ≡ c
      → find_license_by_id_locked s' c'.license_id ≡ some l
      → l.status ≡ "active"
      → ⊥
  found_inactive c' l same found active =
      let (l', found', revoked, keys) = inactive in
      let same_license : l' ≡ l = some-injective (
        sym found'
        ∙ ap (λ x. find_license_by_id_locked s' x) (sym (ap (λ x. x.license_id) same ∙ of_license))
        ∙ found) in
      revoked (ap (λ x. x.status) same_license ∙ active)
    where
      some-injective : {a b : License} → some a ≡ some b → a ≡ b
      some-injective e = cc

  pub not_decided :
      (app_id capability : String) (d : CapabilityDecision)
      → (handle_capability_check env s' app_id license_token capability).1 ≢ decided d
  not_decided app_id capability d h =
      let (c', token', l, found, active) =
        handle_capability_check-license env s' app_id license_token capability h in
      let (l', found', revoked, keys) = inactive in
      found_inactive c' l
        (verify_license_token-valid env.crypto s.public_key (env.time 1409) (env.time 1569) false
          true license_token (rw keys at token') token)
        found active

  pub not_verified :
      (r : Request) (input : ClientVerificationInput)
      → is_empty input.license_key ≡ true
      → input.license_token ≡ license_token
      → allows (process_client_verification env s' r input).1 ≡ false
  not_verified r input no_key same =
      elim (Bool-cases (allows (process_client_verification env s' r input).1)) [
        | inr e ↦ e
        | inl e ↦
            let (v, h, allowed) = allows-verify (process_client_verification env s' r input).1 e in
            let (c', token', l, found, active) = token-license env s' r input v h allowed no_key in
            let (l', found', revoked, keys) = inactive in
            absurd (
              found_inactive c' l
                (verify_license_token-valid env.crypto s.public_key (env.time 1569) (env.time 1569)
                  true true license_token (rw (keys, same) at token') token)
                found active)
      ]

-- Once the revocation of a license is confirmed, a token that names the license is of no use at
-- whatever time it comes: no decision on a capability is made by it, and no request that brings it in
-- place of a license key is let run.
pub handle_license_action-revokes :
    (env : Env) (s : Server) (r : Request) (tail license_id admin_id : String) (l : License)
    → split_on b'/' tail ≡ license_id ∷ "revoke" ∷ []
    → (handle_license_action env s r tail admin_id).1 ≡ license l
    → (license_token : String) (c : LicenseTokenClaims)
    → verify_license_token env.crypto s.public_key (env.time 1569) license_token true ≡ valid c
    → c.license_id ≡ license_id
    → (app_id capability : String) (d : CapabilityDecision) (r' : Request)
      (input : ClientVerificationInput)
    → is_empty input.license_key ≡ true
    → input.license_token ≡ license_token
    → let s' = (handle_license_action env s r tail admin_id).0 in
      ((handle_capability_check env s' app_id license_token capability).1 ≢ decided d)
      × (allows (process_client_verification env s' r' input).1 ≡ false)
handle_license_action-revokes env s r tail license_id admin_id l e h license_token c token
      of_license app_id capability d r' input no_key same =
    let same_action = handle_license_action-eq env s r tail license_id "revoke" admin_id e h in
    let s' = (handle_license_action env s r tail admin_id).0 in
    let inactive : IsInactive s s' license_id =
      subst (λ x. IsInactive s x license_id) (ap (λ p. p.0) (sym same_action))
        (license_action-IsInactive env s r license_id admin_id
          (ap (λ p. p.1) (sym same_action) ∙ h)) in
    (
      not_decided env s s' license_id license_token c inactive of_license token app_id capability d,
      not_verified env s s' license_id license_token c inactive of_license token r' input no_key
          same,
    )
