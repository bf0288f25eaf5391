-- ===== src/System/Clients.antt =====
-- What clients cannot change (internal/licensecore/server.go), by whatever requests they make.
use license_guard.Base.{
  ℕ, String, false, not, ◌&&◌, if◌then◌else◌, is_empty, ◌==◌, ◌||◌, trim_space, arith, Bool-cases,
  inl, inr,
}
use license_guard.Types.{LicenseTokenClaims}
use license_guard.Server.{Server, Env, Request, save_locked, add_events, add_risk_event_locked}
use license_guard.Token.{TokenResult, valid, expired, invalid, verify_license_token}
use license_guard.RateLimit.{record_rate_limit_failure_locked, reset_rate_limit_locked}
use license_guard.Challenge.{
  ChallengeRequest, handle_challenge, issue_challenge, cleanup_expired_challenges_locked,
}
use license_guard.Session.{
  SessionReply, failure, with_token, save_and_reply, decide, check_capability,
  handle_capability_check, add_capability_deny_risk_event_locked, deactivate, deactivate_device,
  handle_deactivate,
}
use license_guard.Session.Standing.{handle_heartbeat-SameStanding}
use license_guard.Verification.{handle_activate, handle_verify}
use license_guard.Verification.Frame.{Frame, Frame-refl, Frame-trans, Frame-same}
use license_guard.Verification.Preservation.{process_client_verification-Frame}
use license_guard.System.{
  ClientRequest, ask_challenge, activation, verification, capability_check, heartbeat, deactivation,
  serve, Reaches, here, answers,
}

handle_challenge-Frame :
    (env : Env) (s : Server) (r : Request) (req : ChallengeRequest)
    → Frame s (handle_challenge env s r req).0
unfolding handle_challenge issue_challenge cleanup_expired_challenges_locked
    record_rate_limit_failure_locked reset_rate_limit_locked
handle_challenge-Frame env s r req = Frame-same s _ (ground arith) (ground arith)

with_token-Frame :
    (env : Env) (line : ℕ) (s : Server) (license_token app_id : String)
    (go : LicenseTokenClaims → Server × SessionReply)
    → ((c : LicenseTokenClaims) → Frame s (go c).0)
    → Frame s (with_token env line s license_token app_id go).0
unfolding with_token
with_token-Frame env line s license_token app_id go h =
    by_result (verify_license_token env.crypto s.public_key (env.time line) license_token false)
  where
    by_result :
        (r : TokenResult)
        → Frame s
            (elim r as (λ _. Server × SessionReply) [
              | invalid e ↦ (s, failure 401 "INVALID_TOKEN" e)
              | expired claims ↦ (s, failure 401 "INVALID_TOKEN" "license token expired")
              | valid claims ↦
                  let out = go claims in
                  if not (is_empty app_id) && not (claims.app_id == app_id)
                  then (s, failure 403 "APP_MISMATCH" "token app does not match request app")
                  else out
            ]).0
    by_result (invalid e) = Frame-refl s
    by_result (expired c) = Frame-refl s
    by_result (valid c) = elim (Bool-cases (not (is_empty app_id) && not (c.app_id == app_id))) [
      | inl e ↦ rw e (Frame-refl s)
      | inr e ↦ rw e (h c)
    ]

check_capability-Frame :
    (env : Env) (s : Server) (name : String) (c : LicenseTokenClaims)
    → Frame s (check_capability env s name c).0
unfolding check_capability decide add_capability_deny_risk_event_locked save_and_reply save_locked
    add_risk_event_locked add_events
check_capability-Frame env s name c = Frame-same s _ (ground arith) (ground arith)

handle_capability_check-Frame :
    (env : Env) (s : Server) (app_id license_token capability : String)
    → Frame s (handle_capability_check env s app_id license_token capability).0
unfolding handle_capability_check
handle_capability_check-Frame env s app_id license_token capability =
    let name = trim_space capability in
    elim (Bool-cases (is_empty license_token || is_empty name)) [
      | inl e ↦ rw e (Frame-refl s)
      | inr e ↦
          rw e
            (with_token-Frame env 1409 s license_token app_id _ (check_capability-Frame env s name))
    ]

handle_deactivate-Frame :
    (env : Env) (s : Server) (app_id license_token install_id : String)
    → Frame s (handle_deactivate env s app_id license_token install_id).0
unfolding handle_deactivate deactivate_device deactivate save_and_reply save_locked
    add_risk_event_locked add_events
handle_deactivate-Frame env s app_id license_token install_id =
    with_token-Frame env 1456 s license_token app_id _
      (λ c. Frame-same s _ (ground arith) (ground arith))

serve-Frame :
    (env : Env) (s : Server) (r : Request) (req : ClientRequest) → Frame s (serve env s r req)
unfolding serve handle_activate handle_verify
serve-Frame env s r (ask_challenge req) = handle_challenge-Frame env s r req
serve-Frame env s r (activation req) = process_client_verification-Frame env s r _
serve-Frame env s r (verification req) = process_client_verification-Frame env s r _
serve-Frame env s r (capability_check app_id license_token capability) =
    handle_capability_check-Frame env s app_id license_token capability
serve-Frame env s r (heartbeat h) =
    let same = handle_heartbeat-SameStanding env s h in Frame-same s _ same.kept same.licenses
serve-Frame env s r (deactivation app_id license_token install_id) =
    handle_deactivate-Frame env s app_id license_token install_id

-- Whatever requests clients make, and however many: the keys, the sessions of administrators, the
-- settings and limits, and the stored accounts, apps, SDK keys, releases, policies and audit logs stay as they were,
-- and the licenses too, except that some may have become "expired".
pub reaches-Frame : {s s' : Server} → Reaches s s' → Frame s s'
reaches-Frame {s} here = Frame-refl s
reaches-Frame {s} (answers {s'} env r req h) =
    Frame-trans s s' _ (reaches-Frame h) (serve-Frame env s' r req)
