-- ===== src/Verification/Refusal.antt =====
-- Every early way out of processClientVerification (internal/licensecore/server.go) refuses the client.
use license_guard.Base.{
  String, Bool, true, false, Option, none, some, ◌≡◌, refl, arith, Result, ok, err, not, ◌==◌,
  Bool-cases, inl, inr,
}
use license_guard.Types.{App, Device, License, LicenseTokenClaims, RiskResult, VerifyResponse}
use license_guard.Server.Find.{
  has_key_hash, has_license_id, find_license_by_key_locked, find_license_by_id_locked,
}
use license_guard.Token.{
  sign_license_token, verify_license_token, TokenResult, valid, expired, invalid,
}
use license_guard.Server.{Server, Env, Request, hash_string}
use license_guard.Capability.Registry.{signed_capability_policy_bundle_locked}
use license_guard.Verification.Monad.{Reply, verify, Step, stop, go, write_denied, allows}
use license_guard.Verification.Licensing.{
  ClientVerificationInput, Subject, is_incomplete, client_verification_rate_limit_key, deny,
  save_and_deny, require_license, license_of_token, check_rate_limit, check_challenge, require_app,
  find_subject, check_license, check_token_app,
}
use license_guard.Verification.Admission.{
  find_or_create_device_locked, check_device, check_token_device, check_token_activation, activate,
  activate_new,
}
use license_guard.Verification.Grant.{
  settings_locked, granted_claims, expires_at, assess, grant, or_fail, save_or_fail, reset_failures,
  with_update, granted,
}
use license_guard.Verification.{
  identify, admit, verify_client, process_client_verification, finish, reject_incomplete,
}

-- What a step answers when it stops: nothing but refusals.
abbrev StopsDenied {ℓ} : {A : Type ℓ} → Step A → Type ℓ
StopsDenied m = (t : Server) (r : Reply) → m ≡ stop t r → allows r ≡ false

-- The step that `◌>>=◌` makes of a step and what follows.
abbrev next {ℓ κ} : {A : Type ℓ} {B : Type κ} → Step A → (A → Server → Step B) → Step B
next (stop t r) f = stop t r
next (go t a) f = f a t

next-StopsDenied {ℓ κ} :
    {A : Type ℓ} {B : Type κ} (m : Step A) (f : A → Server → Step B)
    → StopsDenied m
    → ((a : A) (t : Server) → StopsDenied (f a t))
    → StopsDenied (elim m [ stop t r ↦ stop t r | go t a ↦ f a t ])
next-StopsDenied (stop u q) f h k t r e = h t r (ground arith)
next-StopsDenied (go u a) f h k t r e = k a u t r e

go-StopsDenied {ℓ} : {A : Type ℓ} (s : Server) (a : A) → StopsDenied (go s a)
go-StopsDenied s a t r h = absurd (ground arith)

module _ (env : Env) (key : String) where
  check_rate_limit-StopsDenied : (s : Server) → StopsDenied (check_rate_limit env key s)
  unfolding check_rate_limit
  check_rate_limit-StopsDenied s t r h = ground arith

  check_challenge-StopsDenied :
      (input : ClientVerificationInput) (s : Server) → StopsDenied (check_challenge env key input s)
  unfolding check_challenge deny write_denied
  check_challenge-StopsDenied input s t r h = ground arith

  require_app-StopsDenied :
      (input : ClientVerificationInput) (s : Server) → StopsDenied (require_app env key input s)
  unfolding require_app deny write_denied
  require_app-StopsDenied input s t r h = ground arith

  require_license-StopsDenied :
      (app : App) (p : License → Bool) (claims : Option LicenseTokenClaims) (lic : Option License)
      (s : Server)
      → StopsDenied (require_license env key app p claims lic s)
  unfolding require_license deny write_denied
  require_license-StopsDenied app p claims none s t r h = ground arith
  require_license-StopsDenied app p claims (some lic) s t r h =
      elim (Bool-cases (not (lic.app_id == app.app_key))) [
        | inl e ↦ ground (arith, e)
        | inr e ↦ ground (arith, e)
      ]

  license_of_token-StopsDenied :
      (app : App) (token : TokenResult) (s : Server)
      → StopsDenied (license_of_token env key app token s)
  unfolding license_of_token deny write_denied
  license_of_token-StopsDenied app (valid c) s t r h =
      require_license-StopsDenied app (has_license_id c.license_id) (some c)
        (find_license_by_id_locked s c.license_id) s t r h
  license_of_token-StopsDenied app (expired c) s t r h = ground arith
  license_of_token-StopsDenied app (invalid e) s t r h = ground arith

  find_subject-StopsDenied :
      (input : ClientVerificationInput) (app : App) (s : Server)
      → StopsDenied (find_subject env key input app s)
  unfolding find_subject deny write_denied
  find_subject-StopsDenied input app s t r h = ground (
    arith,
    require_license-StopsDenied app (has_key_hash (hash_string env input.license_key)) none
        (find_license_by_key_locked env s input.license_key) s t r,
    license_of_token-StopsDenied app
        (verify_license_token env.crypto s.public_key (env.time 1569) input.license_token true) s t
        r,
  )

  check_license-StopsDenied :
      (subject : Subject) (s : Server) → StopsDenied (check_license env key subject s)
  unfolding check_license deny save_and_deny write_denied
  check_license-StopsDenied subject s t r h = ground arith

  check_token_app-StopsDenied :
      (subject : Subject) (s : Server) → StopsDenied (check_token_app env key subject s)
  unfolding check_token_app deny save_and_deny write_denied
  check_token_app-StopsDenied subject s t r h = ground arith

  check_device-StopsDenied :
      (subject : Subject) (d : Device) (s : Server) → StopsDenied (check_device env key subject d s)
  unfolding check_device deny save_and_deny write_denied
  check_device-StopsDenied subject d s t r h = ground arith

  check_token_device-StopsDenied :
      (subject : Subject) (d : Device) (s : Server)
      → StopsDenied (check_token_device env key subject d s)
  unfolding check_token_device deny save_and_deny write_denied
  check_token_device-StopsDenied subject d s t r h = ground arith

  check_token_activation-StopsDenied :
      (subject : Subject) (d : Device) (s : Server)
      → StopsDenied (check_token_activation env key subject d s)
  unfolding check_token_activation deny save_and_deny write_denied
  check_token_activation-StopsDenied subject d s t r h = ground arith

  activate-StopsDenied :
      (subject : Subject) (d : Device) (s : Server) → StopsDenied (activate env key subject d s)
  unfolding activate activate_new deny save_and_deny write_denied
  activate-StopsDenied subject d s t r h = ground arith

  find_device-StopsDenied :
      (input : ClientVerificationInput) (s : Server)
      → StopsDenied (find_or_create_device_locked env input s)
  unfolding find_or_create_device_locked
  find_device-StopsDenied input s t r h = ground arith

  assess-StopsDenied :
      (input : ClientVerificationInput) (subject : Subject) (d : Device) (s : Server)
      → StopsDenied (assess env key input subject d s)
  unfolding assess deny save_and_deny write_denied
  assess-StopsDenied input subject d s t r h = ground arith

  or_fail-StopsDenied {ℓ} :
      {A : Type ℓ} (code : String) (m : Result A) (s : Server) → StopsDenied (or_fail code m s)
  unfolding or_fail
  or_fail-StopsDenied code (ok a) s t r h = absurd (ground arith)
  or_fail-StopsDenied code (err e) s t r h = ground arith

  save_or_fail-StopsDenied : (s : Server) → StopsDenied (save_or_fail env s)
  unfolding save_or_fail
  save_or_fail-StopsDenied s t r h = ground arith

  reset_failures-StopsDenied : (s : Server) → StopsDenied (reset_failures env key s)
  unfolding reset_failures
  reset_failures-StopsDenied s = go-StopsDenied _ tt

  with_update-StopsDenied :
      (input : ClientVerificationInput) (subject : Subject) (d : Device) (v : VerifyResponse)
      (s : Server)
      → StopsDenied (with_update env key input subject d v s)
  unfolding with_update
  with_update-StopsDenied input subject d v s = go-StopsDenied s _

  grant-StopsDenied :
      (input : ClientVerificationInput) (subject : Subject) (d : Device) (risk : RiskResult)
      (s : Server)
      → StopsDenied (grant env key input subject d risk s)
  unfolding grant
  grant-StopsDenied input subject d risk s =
      let settings = settings_locked env s in
      let signed =
        sign_license_token env.crypto s.private_key (granted_claims env settings risk subject d) in
      let bundle =
        signed_capability_policy_bundle_locked env s subject.app.app_key subject.license.id d.id
          subject.license.entitlements (expires_at env settings risk) in
      next-StopsDenied (or_fail "TOKEN_SIGN_FAILED" signed s) _
        (or_fail-StopsDenied "TOKEN_SIGN_FAILED" signed s)
        (λ token t1.
          next-StopsDenied (or_fail "POLICY_SIGN_FAILED" bundle t1) _
            (or_fail-StopsDenied "POLICY_SIGN_FAILED" bundle t1)
            (λ policy t2.
              next-StopsDenied (save_or_fail env t2) _ (save_or_fail-StopsDenied t2) (λ u t3.
                next-StopsDenied (reset_failures env key t3) _ (reset_failures-StopsDenied t3)
                  (λ u t4.
                    with_update-StopsDenied input subject d
                      (granted env settings subject d risk token policy) t4))))

  identify-StopsDenied :
      (input : ClientVerificationInput) (s : Server) → StopsDenied (identify env key input s)
  unfolding identify
  identify-StopsDenied input s =
      next-StopsDenied (check_rate_limit env key s) _ (check_rate_limit-StopsDenied s) (λ u t1.
        next-StopsDenied (check_challenge env key input t1) _ (check_challenge-StopsDenied input t1)
          (λ u t2.
            next-StopsDenied (require_app env key input t2) _ (require_app-StopsDenied input t2)
              (λ app t3.
                next-StopsDenied (find_subject env key input app t3) _
                  (find_subject-StopsDenied input app t3)
                  (λ subject t4.
                    next-StopsDenied (check_license env key subject t4) _
                      (check_license-StopsDenied subject t4)
                      (λ u t5.
                        next-StopsDenied (check_token_app env key subject t5) _
                          (check_token_app-StopsDenied subject t5)
                          (λ u t6 t r h. absurd (ground arith)))))))

  admit-StopsDenied :
      (input : ClientVerificationInput) (subject : Subject) (s : Server)
      → StopsDenied (admit env key input subject s)
  unfolding admit
  admit-StopsDenied input subject s =
      next-StopsDenied (find_or_create_device_locked env input s) _
        (find_device-StopsDenied input s)
        (λ d t1.
          next-StopsDenied (check_device env key subject d t1) _
            (check_device-StopsDenied subject d t1)
            (λ u t2.
              next-StopsDenied (check_token_device env key subject d t2) _
                (check_token_device-StopsDenied subject d t2)
                (λ u t3.
                  next-StopsDenied (check_token_activation env key subject d t3) _
                    (check_token_activation-StopsDenied subject d t3)
                    (λ u t4.
                      next-StopsDenied (activate env key subject d t4) _
                        (activate-StopsDenied subject d t4)
                        (λ u t6 t r h. absurd (ground arith))))))

  verify_client-StopsDenied :
      (input : ClientVerificationInput) (s : Server) → StopsDenied (verify_client env key input s)
  unfolding verify_client
  verify_client-StopsDenied input s =
      next-StopsDenied (identify env key input s) _ (identify-StopsDenied input s) (λ subject t1.
        next-StopsDenied (admit env key input subject t1) _ (admit-StopsDenied input subject t1)
          (λ d t2.
            next-StopsDenied (assess env key input subject d t2) _
              (assess-StopsDenied input subject d t2)
              (λ risk t3. grant-StopsDenied input subject d risk t3)))

-- The server and the reply of a step.
reached :
    (m : Step VerifyResponse)
    → StopsDenied m
    → allows (finish m).1 ≡ true
    → (s' : Server) × (v : VerifyResponse) × (m ≡ go s' v) × (finish m ≡ (s', verify v))
reached (stop t r) h e = absurd (ground (arith, h t r refl))
reached (go t v) h e = (t, v, refl, refl)

incomplete-denied :
    (env : Env) (s : Server) (key : String) → allows (reject_incomplete env s key).1 ≡ false
unfolding reject_incomplete
incomplete-denied env s key = ground arith

-- A reply that lets the client run comes from the end of the function alone.
pub allows-verify_client :
    (env : Env) (s : Server) (r : Request) (input : ClientVerificationInput)
    → allows (process_client_verification env s r input).1 ≡ true
    → let key = client_verification_rate_limit_key env input r in
      (is_incomplete input ≡ false)
      × (s' : Server) × (v : VerifyResponse) × (verify_client env key input s ≡ go s' v)
      × (process_client_verification env s r input ≡ (s', verify v))
unfolding process_client_verification
allows-verify_client env s r input h =
    let key = client_verification_rate_limit_key env input r in
    elim (Bool-cases (is_incomplete input)) [
      | inl e ↦ absurd (ground (arith, e, incomplete-denied env s key))
      | inr e ↦
          let (s', v, same, out) =
            reached (verify_client env key input s) (verify_client-StopsDenied env key input s)
              (rw e at h) in
          (e, s', v, same, rw e out)
    ]
