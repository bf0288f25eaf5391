-- ===== src/Verification/Frames.antt =====
-- Each block of processClientVerification (internal/licensecore/server.go) keeps what is not a client's.
use license_guard.Base.{
  String, Bool, true, not, Option, none, some, refl, sym, subst, arith, Bool-cases, Result, ok, err,
  ◌==◌, inl, inr, is_empty,
}
use license_guard.Types.{App, Device, License, LicenseTokenClaims, Time, after}
use license_guard.Token.{TokenResult, valid, expired, invalid, verify_license_token}
use license_guard.Server.{Server, Env, save_locked, add_events, add_risk_event_locked, hash_string}
use license_guard.Server.Find.{
  has_key_hash, has_license_id, find_license_by_key_locked, find_license_by_id_locked,
}
use license_guard.RateLimit.{record_rate_limit_failure_locked}
use license_guard.Challenge.{validate_challenge_locked, cleanup_expired_challenges_locked}
use license_guard.Integrity.{evaluate_integrity_locked}
use license_guard.Integrity.Verdict.{evaluate_integrity_locked-events}
use license_guard.Verification.Licensing.{
  ClientVerificationInput, Subject, deny, save_and_deny, require_license, license_of_token,
  check_rate_limit, check_challenge, require_app, find_subject, expire_license, check_license,
  check_token_app,
}
use license_guard.Verification.Admission.{
  find_or_create_device_locked, update_device, add_device, check_device, check_token_device,
  check_token_activation, activate, activate_new, add_activation, update_activation,
}
use license_guard.Verification.Grant.{assess, or_fail, save_or_fail, add_report, client}
use license_guard.Verification.Frame.{
  Expiry-update_first, Frame, Frame-refl, Frame-trans, Frame-same, after_step,
}

module _ (env : Env) (key : String) where
  pub record_failure-Frame :
      (s : Server) (now : Time) → Frame s (record_rate_limit_failure_locked s key now)
  unfolding record_rate_limit_failure_locked
  record_failure-Frame s now = Frame-same s _ (ground arith) (ground arith)

  -- After a save.
  save_and_record-Frame :
      (s : Server) (now : Time)
      → Frame s (record_rate_limit_failure_locked (save_locked env s).0 key now)
  unfolding save_locked
  save_and_record-Frame s now =
      Frame-trans s (save_locked env s).0 _ (Frame-same s _ refl refl)
        (record_failure-Frame (save_locked env s).0 now)

  pub check_rate_limit-Frame : (s : Server) → Frame s (after_step (check_rate_limit env key s))
  unfolding check_rate_limit
  check_rate_limit-Frame s = Frame-same s _ (ground arith) (ground arith)

  pub check_challenge-Frame :
      (input : ClientVerificationInput) (s : Server)
      → Frame s (after_step (check_challenge env key input s))
  unfolding check_challenge deny validate_challenge_locked cleanup_expired_challenges_locked
      record_rate_limit_failure_locked
  check_challenge-Frame input s = Frame-same s _ (ground arith) (ground arith)

  pub require_app-Frame :
      (input : ClientVerificationInput) (s : Server)
      → Frame s (after_step (require_app env key input s))
  unfolding require_app deny record_rate_limit_failure_locked
  require_app-Frame input s = Frame-same s _ (ground arith) (ground arith)

  require_license-Frame :
      (app : App) (p : License → Bool) (claims : Option LicenseTokenClaims) (lic : Option License)
      (s : Server)
      → Frame s (after_step (require_license env key app p claims lic s))
  unfolding require_license deny
  require_license-Frame app p claims none s = record_failure-Frame s (env.time 1527)
  require_license-Frame app p claims (some lic) s =
      elim (Bool-cases (not (lic.app_id == app.app_key))) [
        | inl e ↦ rw e (record_failure-Frame s (env.time 1527))
        | inr e ↦ rw e (Frame-refl s)
      ]

  pub check_token_app-Frame :
      (subject : Subject) (s : Server) → Frame s (after_step (check_token_app env key subject s))
  unfolding check_token_app deny save_and_deny save_locked add_risk_event_locked add_events
      record_rate_limit_failure_locked
  check_token_app-Frame subject s = Frame-same s _ (ground arith) (ground arith)

  expire_license-Frame : (p : License → Bool) (s : Server) → Frame s (expire_license env key p s)
  unfolding expire_license
  expire_license-Frame p s = record {
    kept = refl;
    licenses = Expiry-update_first p s.contents.licenses;
  }

  pub check_license-Frame :
      (subject : Subject) (s : Server) → Frame s (after_step (check_license env key subject s))
  unfolding check_license deny save_and_deny expire_license
  check_license-Frame subject s =
      let lic = subject.license in
      elim (Bool-cases (not (lic.status == "active"))) [
        | inl e ↦ rw e (record_failure-Frame s (env.time 1527))
        | inr e ↦ rw e (elim (Bool-cases (after (env.time 1589) lic.expires_at)) [
          | inr f ↦ rw f (Frame-refl s)
          | inl f ↦ rw f (
              Frame-trans s (expire_license env key subject.is_license s) _
                (expire_license-Frame subject.is_license s)
                (save_and_record-Frame (expire_license env key subject.is_license s)
                  (env.time 1527)))
        ])
      ]

  license_of_token-Frame :
      (app : App) (r : TokenResult) (s : Server)
      → Frame s (after_step (license_of_token env key app r s))
  unfolding license_of_token deny
  license_of_token-Frame app (valid c) s =
      require_license-Frame app (has_license_id c.license_id) (some c)
        (find_license_by_id_locked s c.license_id) s
  license_of_token-Frame app (expired c) s = record_failure-Frame s (env.time 1527)
  license_of_token-Frame app (invalid e) s = record_failure-Frame s (env.time 1527)

  pub find_subject-Frame :
      (input : ClientVerificationInput) (app : App) (s : Server)
      → Frame s (after_step (find_subject env key input app s))
  unfolding find_subject deny
  find_subject-Frame input app s = elim (Bool-cases (not (is_empty input.license_key))) [
    | inl e ↦ rw e (
        require_license-Frame app (has_key_hash (hash_string env input.license_key)) none
          (find_license_by_key_locked env s input.license_key) s)
    | inr e ↦ rw e (elim (Bool-cases (not (is_empty input.license_token))) [
      | inl f ↦ rw f (
          license_of_token-Frame app
            (verify_license_token env.crypto s.public_key (env.time 1569) input.license_token true)
            s)
      | inr f ↦ rw f (record_failure-Frame s (env.time 1527))
    ])
  ]

  pub find_device-Frame :
      (input : ClientVerificationInput) (s : Server)
      → Frame s (after_step (find_or_create_device_locked env input s))
  unfolding find_or_create_device_locked update_device add_device
  find_device-Frame input s = Frame-same s _ (ground arith) (ground arith)

  pub check_device-Frame :
      (subject : Subject) (d : Device) (s : Server)
      → Frame s (after_step (check_device env key subject d s))
  unfolding check_device deny save_and_deny save_locked add_risk_event_locked add_events
      record_rate_limit_failure_locked
  check_device-Frame subject d s = Frame-same s _ (ground arith) (ground arith)

  pub check_token_device-Frame :
      (subject : Subject) (d : Device) (s : Server)
      → Frame s (after_step (check_token_device env key subject d s))
  unfolding check_token_device deny save_and_deny save_locked add_risk_event_locked add_events
      record_rate_limit_failure_locked
  check_token_device-Frame subject d s = Frame-same s _ (ground arith) (ground arith)

  pub check_token_activation-Frame :
      (subject : Subject) (d : Device) (s : Server)
      → Frame s (after_step (check_token_activation env key subject d s))
  unfolding check_token_activation deny save_and_deny save_locked add_risk_event_locked add_events
      record_rate_limit_failure_locked
  check_token_activation-Frame subject d s = Frame-same s _ (ground arith) (ground arith)

  pub activate-Frame :
      (subject : Subject) (d : Device) (s : Server)
      → Frame s (after_step (activate env key subject d s))
  unfolding activate activate_new add_activation update_activation deny save_and_deny save_locked
      add_risk_event_locked add_events record_rate_limit_failure_locked
  activate-Frame subject d s = Frame-same s _ (ground arith) (ground arith)

  pub assess-Frame :
      (input : ClientVerificationInput) (subject : Subject) (d : Device) (s : Server)
      → Frame s (after_step (assess env key input subject d s))
  unfolding assess update_device add_report deny save_and_deny save_locked
      record_rate_limit_failure_locked add_events
  assess-Frame input subject d s =
      let same = evaluate_integrity_locked-events env s (client input subject d) in
      Frame-trans s (evaluate_integrity_locked env s (client input subject d)).server _
        (subst (Frame s) (sym same) (Frame-same s _ refl refl))
        (Frame-same _ _ (ground arith) (ground arith))

  pub or_fail-Frame {ℓ} :
      {A : Type ℓ} (code : String) (m : Result A) (s : Server)
      → Frame s (after_step (or_fail code m s))
  unfolding or_fail
  or_fail-Frame code (ok a) s = Frame-refl s
  or_fail-Frame code (err e) s = Frame-refl s

  pub save_or_fail-Frame : (s : Server) → Frame s (after_step (save_or_fail env s))
  unfolding save_or_fail save_locked
  save_or_fail-Frame s = Frame-same s _ (ground arith) (ground arith)
