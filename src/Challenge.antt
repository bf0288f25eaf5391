-- ===== src/Challenge.antt =====
-- The one-time challenges of internal/licensecore/server.go: handleChallenge, validateChallengeLocked.
pub mod SingleUse
use license_guard.Base.{
  ℕ, ◌+◌, ◌*◌, String, List, [], ◌∷◌, Bool, true, false, ◌||◌, not, Option, none, some, Dict,
  lookup, insert, delete, retain, if◌then◌else◌, is_empty, ◌==◌, is_some, length,
}
use license_guard.Types.{Challenge, Time, after, second}
use license_guard.Server.{Server, Env, Request, new_id}
use license_guard.Server.Find.{find_app_locked}
use license_guard.RateLimit.{
  is_rate_limited_locked, record_rate_limit_failure_locked, reset_rate_limit_locked, rate_limit_key,
  client_addr,
}

-- cleanupExpiredChallengesLocked
unfoldable pub cleanup_expired_challenges_locked : Server → Time → Server
cleanup_expired_challenges_locked s now = record s {
  challenges = retain (λ id c. not (after now c.expires_at)) s.challenges;
}

-- validateChallengeLocked, without the clean-up that each of its ways out makes: the challenges that
-- are left, and the error
unfoldable pub take_challenge :
    Dict Challenge → Time → String → String → String → String → Dict Challenge × Option String
take_challenge challenges now app_id install_id challenge_id nonce =
    elim (lookup challenge_id challenges) [
      | none ↦ (challenges, some "challenge not found")
      | some c ↦ (
        delete challenge_id challenges,
        if after now c.expires_at
            then some "challenge expired"
            else if not (c.app_id == app_id)
                || not (c.install_id == install_id)
                || not (c.nonce == nonce)
            then some "challenge fields do not match request"
            else none,
      )
    ]

-- validateChallengeLocked; `now` is its reading of the clock.
unfoldable pub validate_challenge_locked :
    Server → Time → String → String → String → String → Server × Option String
unfolding take_challenge cleanup_expired_challenges_locked
validate_challenge_locked s now app_id install_id challenge_id nonce =
    let (left, e) = take_challenge s.challenges now app_id install_id challenge_id nonce in
    (cleanup_expired_challenges_locked (record s { challenges = left }) now, e)

-- The body of a challenge request.
pub record ChallengeRequest : Type 0 where
  pub app_id : String
  pub platform : String
  pub install_id : String
  pub app_version : String

-- What handleChallenge answers: an error, or the challenge that it has stored.
pub data ChallengeReply : Type 0 where
  failed : ℕ → String → String → ChallengeReply
  issued : Challenge → Time → ChallengeReply

-- The challenge that a request is given.
abbrev pub new_challenge : Env → ChallengeRequest → Challenge
unfolding new_id
new_challenge env req = record {
  id = new_id env 1209 "chg";
  nonce = env.random_string 1210 32;
  app_id = req.app_id;
  install_id = req.install_id;
  expires_at = env.time 1192 + 5 * 60 * second;
  created_at = env.time 1192;
}

-- handleChallenge, from its second critical section on
unfoldable pub issue_challenge : Env → Server → ChallengeRequest → String → Server × ChallengeReply
unfolding new_challenge
issue_challenge env s req rate_key =
    let cleaned = cleanup_expired_challenges_locked s (env.time 1192) in
    let c = new_challenge env req in
    if is_some (find_app_locked cleaned req.app_id)
    then (let reset = reset_rate_limit_locked cleaned rate_key in
        (record reset { challenges = insert c.id c reset.challenges }, issued c (env.time 1192)))
    else (
      record_rate_limit_failure_locked cleaned rate_key (env.time 1220),
      failed 404 "APP_NOT_FOUND" "app not found",
    )

-- handleChallenge, on a decoded body
unfoldable pub handle_challenge :
    Env → Server → Request → ChallengeRequest → Server × ChallengeReply
unfolding issue_challenge
handle_challenge env s r req =
    let rate_key =
      rate_limit_key ("challenge" ∷ req.app_id ∷ req.install_id ∷ client_addr env r ∷ []) in
    if is_rate_limited_locked s rate_key (env.time 1192)
    then (s, failed 429 "RATE_LIMITED" "too many failed attempts, try again later")
    else if is_empty req.app_id || is_empty req.install_id
    then (
      record_rate_limit_failure_locked s rate_key (env.time 1202),
      failed 400 "INVALID_REQUEST" "app_id and install_id are required",
    )
    else issue_challenge env s req rate_key
