-- ===== src/Verification/Granted.antt =====
-- What holds when a client is let run (internal/licensecore/server.go, processClientVerification).
use license_guard.Base.{
  String, [], ◌∷◌, ◌++◌, true, false, Option, none, some, ◌≡◌, ◌≢◌, refl, arith, sym, ◌∙◌, ap,
  subst, Result, ok,
}
use license_guard.Types.{
  Device, LicenseTokenClaims, VerifyResponse, RiskResult, SignedCapabilityPolicyBundle, UpdateInfo,
  Time, unix,
}
use license_guard.Token.{sign_license_token}
use license_guard.Server.{Server, Env, Request}
use license_guard.Server.Find.{find_activation_locked}
use license_guard.Capability.Registry.{signed_capability_policy_bundle_locked}
use license_guard.Capability.Signing.{IsSigned, signed_capability_policy_bundle_locked-IsSigned}
use license_guard.Integrity.Deny.{admits}
use license_guard.RateLimit.{reset_rate_limit_locked}
use license_guard.Release.{update_info_locked}
use license_guard.Verification.Monad.{Reply, failure, go, verify, allows, >>=-eq-go, >>-eq-go}
use license_guard.Verification.Licensing.{
  ClientVerificationInput, Subject, client_verification_rate_limit_key,
}
use license_guard.Verification.Grant.{
  settings_locked, granted_claims, expires_at, assess, grant, or_fail, save_or_fail, reset_failures,
  with_update, granted,
}
use license_guard.Verification.Refusal.{allows-verify_client}
use license_guard.Verification.Soundness.{Kept, IsLicensed, identify-IsLicensed}
use license_guard.Verification.Outcome.{
  IsActivated, admit-Admitted, assess-go, or_fail-go, save_or_fail-go,
}
use license_guard.Verification.Devices.{
  IsStored, IsStored-same, admit-IsStored, admit-IsActivated, assess-IsStored,
}
use license_guard.Verification.{identify, admit, verify_client, process_client_verification}

-- The token of the reply is signed, for the license and the device, and what it rests on is stored:
-- nothing was handed to the store before, and the store took what the server holds in the end.
pub record IsSaved (env : Env) (s : Server) (subject : Subject) (device_id : String) (s' : Server)
    (v : VerifyResponse) : Type 0 where
  pub claims : LicenseTokenClaims
  pub signed : sign_license_token env.crypto s.private_key claims ≡ ok v.license_token
  pub of_license : claims.license_id ≡ subject.license.id
  pub of_device : claims.device_id ≡ device_id
  pub of_app : claims.app_id ≡ subject.app.app_key
  pub entitled : claims.entitlements ≡ subject.license.entitlements
  pub listed : v.entitlements ≡ subject.license.entitlements
  pub expiry : (t : Time) × (v.expires_at ≡ some t) × (claims.expires_at ≡ unix t)
  pub policies :
      (b : SignedCapabilityPolicyBundle)
      → v.capability_policy ≡ some b
      → IsSigned env.crypto s.private_key subject.app.app_key b
  pub saved : s'.saves ≡ s.saves ++ s'.contents ∷ []
  pub taken : env.save s.saves s'.contents ≡ none

module _ (env : Env) (key : String) where
  with_update-go :
      (input : ClientVerificationInput) (subject : Subject) (d : Device) (v : VerifyResponse)
      (s : Server) {t t' : Server} {w : VerifyResponse}
      → reset_failures env key s ≡ go t tt
      → with_update env key input subject d v t ≡ go t' w
      → ((u : Option UpdateInfo) × (w ≡ record v { update = u }))
        × (t'.contents ≡ s.contents)
        × (t'.saves ≡ s.saves)
  unfolding with_update reset_failures reset_rate_limit_locked
  with_update-go input subject d v s {t} h k = (
    (
      update_info_locked env t subject.app.app_key input.platform input.integrity.app_version d.id,
      ground arith,
    ),
    ground arith,
    ground arith,
  )

  steps-IsSaved :
      (input : ClientVerificationInput) (subject : Subject) (d : Device) (risk : RiskResult)
      (s : Server) {t1 t2 t3 t4 t : Server} {token : String}
      {policy : Option SignedCapabilityPolicyBundle} {v : VerifyResponse}
      (bundle : Result (Option SignedCapabilityPolicyBundle))
      → ((b : SignedCapabilityPolicyBundle)
          → bundle ≡ ok (some b)
          → IsSigned env.crypto s.private_key subject.app.app_key b)
      → or_fail "TOKEN_SIGN_FAILED"
          (sign_license_token env.crypto s.private_key
            (granted_claims env (settings_locked env s) risk subject d))
          s
        ≡ go t1 token
      → or_fail "POLICY_SIGN_FAILED" bundle t1 ≡ go t2 policy
      → save_or_fail env t2 ≡ go t3 tt
      → reset_failures env key t3 ≡ go t4 tt
      → with_update env key input subject d
          (granted env (settings_locked env s) subject d risk token policy)
          t4
        ≡ go t v
      → IsSaved env s subject d.id t v × (t.contents ≡ s.contents)
  unfolding granted_claims granted
  steps-IsSaved input subject d risk s {t1} {t2} {t3} {t4} {t} {token} {policy} {v} bundle made h1
        h2 h3 h4 h5 =
      let (signed, e1) = or_fail-go env key "TOKEN_SIGN_FAILED" _ s h1 in
      let (bundled, e2) = or_fail-go env key "POLICY_SIGN_FAILED" bundle t1 h2 in
      let (taken, contents, saves) = save_or_fail-go env key t2 h3 in
      let ((u, reply), same_contents, same_saves) = with_update-go input subject d _ t3 h4 h5 in
      let same : t2 ≡ s = e2 ∙ e1 in
      let kept : t.contents ≡ s.contents = same_contents ∙ contents ∙ ap (λ x. x.contents) same in
      (
        record {
          claims = granted_claims env (settings_locked env s) risk subject d;
          signed = signed ∙ ap ok (sym (ap (λ x. x.license_token) reply));
          of_license = refl;
          of_device = refl;
          of_app = refl;
          entitled = refl;
          listed = ap (λ x. x.entitlements) reply;
          expiry =
              (expires_at env (settings_locked env s) risk, ap (λ x. x.expires_at) reply, refl);
          policies =
              λ b e. made b (bundled ∙ ap ok (sym (ap (λ x. x.capability_policy) reply) ∙ e));
          saved =
              same_saves
              ∙ saves
              ∙ ap (λ x. x.saves ++ x.contents ∷ []) same
              ∙ ap (λ c. s.saves ++ c ∷ []) (sym kept);
          taken =
              ap (λ c. env.save s.saves c) kept
              ∙ ap (λ x. env.save x.saves x.contents) (sym same)
              ∙ taken;
        },
        kept,
      )

  grant-IsSaved :
      (input : ClientVerificationInput) (subject : Subject) (d : Device) (risk : RiskResult)
      (s : Server) {t : Server} {v : VerifyResponse}
      → grant env key input subject d risk s ≡ go t v
      → IsSaved env s subject d.id t v × (t.contents ≡ s.contents)
  unfolding grant
  grant-IsSaved input subject d risk s h =
      let settings = settings_locked env s in
      let claims = granted_claims env settings risk subject d in
      let (t1, token, h1, r1) =
        >>=-eq-go
          (or_fail "TOKEN_SIGN_FAILED" (sign_license_token env.crypto s.private_key claims) s) _
          h in
      let (t2, policy, h2, r2) =
        >>=-eq-go
          (or_fail "POLICY_SIGN_FAILED"
            (signed_capability_policy_bundle_locked env s subject.app.app_key subject.license.id
              d.id subject.license.entitlements (expires_at env settings risk))
            t1)
          _ r1 in
      let (t3, h3, r3) = >>-eq-go (save_or_fail env t2) _ r2 in
      let (t4, h4, r4) =
        >>-eq-go (reset_failures env key t3)
          (with_update env key input subject d (granted env settings subject d risk token policy))
          r3 in
      steps-IsSaved input subject d risk s
        (signed_capability_policy_bundle_locked env s subject.app.app_key subject.license.id d.id
          subject.license.entitlements (expires_at env settings risk))
        (λ b.
          signed_capability_policy_bundle_locked-IsSigned env s subject.app.app_key
            subject.license.id d.id subject.license.entitlements (expires_at env settings risk))
        h1 h2 h3 h4 r4

-- All that holds of a request that is granted. The device is the one that the request's fingerprint
-- finds on the server in the end; `known` is of the one that it found on the server before, if any.
pub record IsGranted (env : Env) (s : Server) (key : String) (input : ClientVerificationInput)
    (s' : Server) (v : VerifyResponse) : Type 0 where
  pub subject : Subject
  pub device : Device
  pub licensed : IsLicensed env s key input subject
  pub stored : IsStored env input s' device
  pub not_blocked : device.status ≢ "blocked"
  pub known : (d : Device) → IsStored env input s d → (d.id ≡ device.id) × (d.status ≢ "blocked")
  pub token_device : (c : LicenseTokenClaims) → subject.claims ≡ some c → c.device_id ≡ device.id
  pub token_activated :
      (c : LicenseTokenClaims)
      → subject.claims ≡ some c
      → IsActivated s subject.license.id device.id
  pub activated : IsActivated s' subject.license.id device.id
  pub not_tampered : admits input.integrity ≡ false
  pub is_saved : IsSaved env s subject device.id s' v

IsActivated-same :
    (s t : Server) (license_id device_id : String)
    → t.contents.activations ≡ s.contents.activations
    → IsActivated s license_id device_id
    → IsActivated t license_id device_id
unfolding find_activation_locked
IsActivated-same s t license_id device_id e (a, found, active) = (a, rw e found, active)

IsSaved-same :
    (env : Env) (s t : Server) {subject : Subject} {device_id : String} {u : Server}
    {v : VerifyResponse}
    → Kept s t
    → IsSaved env t subject device_id u v
    → IsSaved env s subject device_id u v
IsSaved-same env s t (saves, keys) h = record {
  claims = h.claims;
  signed = rw keys at h.signed;
  of_license = h.of_license;
  of_device = h.of_device;
  of_app = h.of_app;
  entitled = h.entitled;
  listed = h.listed;
  expiry = h.expiry;
  policies = rw keys at h.policies;
  saved = rw saves at h.saved;
  taken = rw saves at h.taken;
}

stages-IsGranted :
    (env : Env) (key : String) (input : ClientVerificationInput) {s t1 t2 t3 t4 : Server}
    {subject : Subject} {d : Device} {risk : RiskResult} {v : VerifyResponse}
    → identify env key input s ≡ go t1 subject
    → admit env key input subject t1 ≡ go t2 d
    → assess env key input subject d t2 ≡ go t3 risk
    → grant env key input subject d risk t3 ≡ go t4 v
    → IsGranted env s key input t4 v
stages-IsGranted env key input {s} {t1} {t2} {t3} {t4} {subject} {d} {risk} {v} h1 h2 h3 h4 =
    let (licensed, same1, kept1) = identify-IsLicensed env key input s h1 in
    let (of_request, active, token, activated, kept2) =
      admit-Admitted env key input subject t1 h2 in
    let (untampered, same3, kept3) = assess-go env key input subject d t2 h3 in
    let (saved, same4) = grant-IsSaved env key input subject d risk t3 h4 in
    let (stored, known) = admit-IsStored env input key subject t1 h2 in
    let (d', stored', same_id, same_status) =
      assess-IsStored env input key subject d t2 h3 stored in
    let before : (x : Device) → IsStored env input s x → (x.id ≡ d.id) × (x.status ≡ d.status) =
      λ x e. known x (IsStored-same env input s t1 (ap (λ c. c.devices) same1) e) in
    record {
      subject = subject;
      device = d';
      licensed = licensed;
      stored = IsStored-same env input t3 t4 (ap (λ c. c.devices) same4) stored';
      not_blocked = λ e. active (sym same_status ∙ e);
      known =
          λ x e. ((before x e).0 ∙ sym same_id, λ blocked. active (sym (before x e).1 ∙ blocked));
      token_device = λ c e. token c e ∙ sym same_id;
      token_activated = λ c e. subst (IsActivated s subject.license.id) (sym same_id) (
          IsActivated-same t1 s subject.license.id d.id (sym (ap (λ c. c.activations) same1))
            (admit-IsActivated env input key subject t1 h2 e));
      activated = subst (IsActivated t4 subject.license.id) (sym same_id) (
          IsActivated-same t2 t4 subject.license.id d.id (ap (λ c. c.activations) same4 ∙ same3)
            activated);
      not_tampered = untampered;
      is_saved =
          subst (λ x. IsSaved env s subject x t4 v) (sym same_id)
            (IsSaved-same env s t1 kept1
              (IsSaved-same env t1 t2 kept2 (IsSaved-same env t2 t3 kept3 saved)));
    }

IsGranted-verify_client :
    (env : Env) (key : String) (input : ClientVerificationInput) (s : Server) {t : Server}
    {v : VerifyResponse}
    → verify_client env key input s ≡ go t v
    → IsGranted env s key input t v
unfolding verify_client
IsGranted-verify_client env key input s h =
    let (t1, subject, h1, r1) = >>=-eq-go (identify env key input s) _ h in
    let (t2, d, h2, r2) = >>=-eq-go (admit env key input subject t1) _ r1 in
    let (t3, risk, h3, r3) = >>=-eq-go (assess env key input subject d t2) _ r2 in
    stages-IsGranted env key input h1 h2 h3 r3

-- A client is let run only if all of this holds: its key for the rate limit is not limited; its
-- challenge answers the request; the app is found and active; the license is named by its key or by a
-- signed token, belongs to the app, is active and has not expired; the token, if it is by one, is for
-- this app and device, on which the license was active already; the device that the server had under the request's fingerprint, if it had one,
-- was not blocked; and the report does not itself show tampering. Then the server has the device under
-- that fingerprint, not blocked and with the id that it had before, if it was known, and the license is
-- active on it; the reply's token is signed for the app, the license and the device, with the expiry
-- that the reply names and the license's entitlements, which the reply lists; the reply's decisions, if
-- it has any, are signed for the app; and the store has taken, in the one save of the request, the
-- contents that the server is left with.
pub process_client_verification-IsGranted :
    (env : Env) (s : Server) (r : Request) (input : ClientVerificationInput) (v : VerifyResponse)
    → (process_client_verification env s r input).1 ≡ verify v
    → v.allowed ≡ true
    → IsGranted env s
        (client_verification_rate_limit_key env input r)
        input
        (process_client_verification env s r input).0
        v
process_client_verification-IsGranted env s r input v h allowed =
    let key = client_verification_rate_limit_key env input r in
    let (complete, s', w, done, out) = allows-verify_client env s r input (ap allows h ∙ allowed) in
    let server : (process_client_verification env s r input).0 ≡ s' = ap (λ p. p.0) out in
    let reply : w ≡ v = verify-injective (sym (ap (λ p. p.1) out) ∙ h) in
    subst (λ x. IsGranted env s key input x v) (sym server)
      (subst (λ x. IsGranted env s key input s' x) reply
        (IsGranted-verify_client env key input s done))
  where
    verify-injective : {a b : VerifyResponse} → verify a ≡ verify b → a ≡ b
    verify-injective e = ground (arith, e)

pub allows-verify :
    (x : Reply) → allows x ≡ true → (v : VerifyResponse) × (x ≡ verify v) × (v.allowed ≡ true)
allows-verify (failure status code message) h = absurd (ground arith)
allows-verify (verify v) h = (v, refl, h)
