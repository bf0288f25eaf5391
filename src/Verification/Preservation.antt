-- ===== src/Verification/Preservation.antt =====
-- What every answer of processClientVerification (internal/licensecore/server.go) keeps, granted or refused.
use license_guard.Base.{String, Bool-cases, inl, inr, refl}
use license_guard.Types.{Device, RiskResult, VerifyResponse}
use license_guard.Token.{sign_license_token}
use license_guard.Server.{Server, Env, Request}
use license_guard.RateLimit.{is_rate_limited_locked, reset_rate_limit_locked}
use license_guard.Capability.Registry.{signed_capability_policy_bundle_locked}
use license_guard.Verification.Monad.{Step, stop, go}
use license_guard.Verification.Licensing.{
  ClientVerificationInput, Subject, is_incomplete, client_verification_rate_limit_key,
  check_rate_limit, check_challenge, require_app, find_subject, check_license, check_token_app,
}
use license_guard.Verification.Admission.{
  find_or_create_device_locked, check_device, check_token_device, check_token_activation, activate,
}
use license_guard.Verification.Grant.{
  settings_locked, granted_claims, expires_at, assess, grant, or_fail, save_or_fail, reset_failures,
  with_update,
}
use license_guard.Verification.{
  identify, admit, verify_client, process_client_verification, finish, reject_incomplete,
}
use license_guard.Verification.Frame.{Frame, Frame-refl, Frame-same, after_step, next-Frame}
use license_guard.Verification.Frames.{
  record_failure-Frame, check_rate_limit-Frame, check_challenge-Frame, require_app-Frame,
  find_subject-Frame, check_license-Frame, check_token_app-Frame, find_device-Frame,
  check_device-Frame, check_token_device-Frame, check_token_activation-Frame, activate-Frame,
  assess-Frame, or_fail-Frame, save_or_fail-Frame,
}

module _ (env : Env) (key : String) where
  grant-Frame :
      (input : ClientVerificationInput) (subject : Subject) (d : Device) (risk : RiskResult)
      (s : Server)
      → Frame s (after_step (grant env key input subject d risk s))
  unfolding grant reset_failures reset_rate_limit_locked with_update
  grant-Frame input subject d risk s =
      let settings = settings_locked env s in
      let signed =
        sign_license_token env.crypto s.private_key (granted_claims env settings risk subject d) in
      let bundle =
        signed_capability_policy_bundle_locked env s subject.app.app_key subject.license.id d.id
          subject.license.entitlements (expires_at env settings risk) in
      next-Frame s (or_fail "TOKEN_SIGN_FAILED" signed s) _
        (or_fail-Frame env key "TOKEN_SIGN_FAILED" signed s)
        (λ token t1.
          next-Frame t1 (or_fail "POLICY_SIGN_FAILED" bundle t1) _
            (or_fail-Frame env key "POLICY_SIGN_FAILED" bundle t1)
            (λ policy t2.
              next-Frame t2 (save_or_fail env t2) _ (save_or_fail-Frame env key t2)
                (λ u t3. Frame-same t3 _ refl refl)))

  identify-Frame :
      (input : ClientVerificationInput) (s : Server)
      → Frame s (after_step (identify env key input s))
  unfolding identify
  identify-Frame input s =
      next-Frame s (check_rate_limit env key s) _ (check_rate_limit-Frame env key s) (λ u t1.
        next-Frame t1 (check_challenge env key input t1) _ (check_challenge-Frame env key input t1)
          (λ u t2.
            next-Frame t2 (require_app env key input t2) _ (require_app-Frame env key input t2)
              (λ app t3.
                next-Frame t3 (find_subject env key input app t3) _
                  (find_subject-Frame env key input app t3)
                  (λ subject t4.
                    next-Frame t4 (check_license env key subject t4) _
                      (check_license-Frame env key subject t4)
                      (λ u t5.
                        next-Frame t5 (check_token_app env key subject t5) _
                          (check_token_app-Frame env key subject t5) (λ u t6. Frame-refl t6))))))

  admit-Frame :
      (input : ClientVerificationInput) (subject : Subject) (s : Server)
      → Frame s (after_step (admit env key input subject s))
  unfolding admit
  admit-Frame input subject s =
      next-Frame s (find_or_create_device_locked env input s) _ (find_device-Frame env key input s)
        (λ d t1.
          next-Frame t1 (check_device env key subject d t1) _
            (check_device-Frame env key subject d t1)
            (λ u t2.
              next-Frame t2 (check_token_device env key subject d t2) _
                (check_token_device-Frame env key subject d t2)
                (λ u t3.
                  next-Frame t3 (check_token_activation env key subject d t3) _
                    (check_token_activation-Frame env key subject d t3)
                    (λ u t4.
                      next-Frame t4 (activate env key subject d t4) _
                        (activate-Frame env key subject d t4) (λ u t5. Frame-refl t5)))))

  verify_client-Frame :
      (input : ClientVerificationInput) (s : Server)
      → Frame s (after_step (verify_client env key input s))
  unfolding verify_client
  verify_client-Frame input s =
      next-Frame s (identify env key input s) _ (identify-Frame input s) (λ subject t1.
        next-Frame t1 (admit env key input subject t1) _ (admit-Frame input subject t1) (λ d t2.
          next-Frame t2 (assess env key input subject d t2) _
            (assess-Frame env key input subject d t2)
            (λ risk t3. grant-Frame input subject d risk t3)))

reject_incomplete-Frame :
    (env : Env) (s : Server) (key : String) → Frame s (reject_incomplete env s key).0
unfolding reject_incomplete
reject_incomplete-Frame env s key =
    elim (Bool-cases (is_rate_limited_locked s key (env.time 1535))) [
      | inl e ↦ rw e (Frame-refl s)
      | inr e ↦ rw e (record_failure-Frame env key s (env.time 1540))
    ]

finish-Frame :
    (s : Server) (m : Step VerifyResponse) → Frame s (after_step m) → Frame s (finish m).0
finish-Frame s (stop t r) h = h
finish-Frame s (go t v) h = h

pub process_client_verification-Frame :
    (env : Env) (s : Server) (r : Request) (input : ClientVerificationInput)
    → Frame s (process_client_verification env s r input).0
unfolding process_client_verification
process_client_verification-Frame env s r input =
    let key = client_verification_rate_limit_key env input r in
    elim (Bool-cases (is_incomplete input)) [
      | inl e ↦ rw e (reject_incomplete-Frame env s key)
      | inr e ↦
          rw e
            (finish-Frame s (verify_client env key input s) (verify_client-Frame env key input s))
    ]
