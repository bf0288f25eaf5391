-- ===== src/Tests/Requests.antt =====
-- The theorems on tokens, challenges, failed attempts and integrity (internal/licensecore) at concrete data.
use license_guard.Challenge.{validate_challenge_locked, handle_challenge}
use license_guard.Token.{sign_license_token, verify_license_token}
use license_guard.RateLimit.{open_window, is_rate_limited_locked}
use license_guard.Integrity.{exact_release, evaluate_integrity_locked}
use license_guard.Server.Find.{find_app_locked}
use license_guard.Base.{find_first, lookup, join, true, false, ◌≡◌, refl}
use license_guard.Types.{unix}
use license_guard.Base.{
  ℕ, pos, ◌*◌, ◌+◌, ◌≤◌, suc, length, leb_ℤ, ltb_ℤ, String, [], ◌∷◌, not, ◌&&◌, ◌||◌, none, some,
  ok, if◌then◌else◌, ◌≢◌, ◌↔◌, arith, eq_iff, leb,
}
use license_guard.Types.{Challenge, second}
use license_guard.Token.{valid, expired}
use license_guard.Token.RoundTrip.{verify-sign_license_token}
use license_guard.Challenge.{issued}
use license_guard.Challenge.SingleUse.{
  Answers, validate-Answers, replay_refused, validate-keeps, issued-Answers,
}
use license_guard.RateLimit.{limit_off, window_passed}
use license_guard.RateLimit.Window.{record_failures, record_failures-limited, record_failures-other}
use license_guard.Integrity.Trail.{IsRecorded, evaluate_integrity_locked-IsRecorded}
use license_guard.Integrity.Deny.{contradicts_release, admits, evaluate_integrity_locked-deny}
use license_guard.Integrity.Verdict.{evaluate_integrity_locked-score}
use license_guard.Tests.Codec.{codec, codec-IsLawful, example_claims}
use license_guard.Tests.Fixtures.{env, server, request, client, challenge, challenge_request, now}

-- Tokens

abbrev example_token : String
example_token = "11111110.111010.110"

signed : sign_license_token codec (2 ∷ []) example_claims ≡ ok example_token
unfolding sign_license_token join
signed = refl

verify-sign_license_token_example : verify_license_token codec (1 ∷ []) now example_token false ≡ (
    if not false && ltb_ℤ example_claims.expires_at (unix now)
    then expired example_claims
    else valid example_claims)
verify-sign_license_token_example =
    verify-sign_license_token codec (1 ∷ []) (2 ∷ []) example_claims example_token now false
      codec-IsLawful signed

-- Challenges

validate-Answers_example :
    ((validate_challenge_locked server now "visionflow" "inst" "chg_1" "nonce").1 ≡ none)
    ↔ Answers server now "visionflow" "inst" "chg_1" "nonce"
validate-Answers_example = validate-Answers server now "visionflow" "inst" "chg_1" "nonce"

replay_refused_example :
    (validate_challenge_locked
      (validate_challenge_locked server now "visionflow" "inst" "chg_1" "nonce").0
      now
      "visionflow"
      "inst"
      "chg_1"
      "nonce").1
    ≡ some "challenge not found"
replay_refused_example =
    replay_refused server now now "visionflow" "inst" "chg_1" "nonce" "visionflow" "inst" "nonce"

other_id : ◌≢◌ {A = String} "chg_0" "chg_1"
other_id e = ground (arith, eq_iff "chg_0" "chg_1")

stored : lookup "chg_1" server.challenges ≡ some challenge
unfolding lookup
stored = refl

validate-keeps_example :
    lookup "chg_1"
      (validate_challenge_locked server now "visionflow" "inst" "chg_0" "nonce").0.challenges
    ≡ some challenge
validate-keeps_example =
    validate-keeps server now "visionflow" "inst" "chg_0" "nonce" "chg_1" challenge other_id stored
      refl

abbrev new_one : Challenge
new_one = record {
  id = "chg_20260101_rnd";
  nonce = "rnd";
  app_id = "visionflow";
  install_id = "inst";
  expires_at = now + 5 * 60 * second;
  created_at = now;
}

given : (handle_challenge env server request challenge_request).1 ≡ issued new_one now
unfolding validate_challenge_locked handle_challenge is_rate_limited_locked join find_first lookup
    find_app_locked
given = refl

issued-Answers_example :
    ((validate_challenge_locked
        (handle_challenge env server request challenge_request).0
        (now + second)
        "visionflow"
        "inst"
        new_one.id
        new_one.nonce).1
      ≡ none)
    ↔ ((◌≡◌ {A = String} "visionflow" challenge_request.app_id)
        × (◌≡◌ {A = String} "inst" challenge_request.install_id)
        × (now + second ≤ now + 300 * second))
issued-Answers_example =
    issued-Answers env server request challenge_request new_one now (now + second) "visionflow"
      "inst" given

-- Failed attempts

limited_on : limit_off server ≡ false
limited_on = refl

no_window : open_window server "k" now ≡ none
unfolding open_window lookup
no_window = refl

record_failures-limited_example :
    is_rate_limited_locked (record_failures server "k" (now ∷ (now + 1) ∷ [])) "k" (now + 2) ≡ (
      if window_passed server.rate_limit_window now (now + 2)
      then false
      else leb_ℤ server.rate_limit_failures (pos (suc (length ((now + 1) ∷ [])))))
record_failures-limited_example =
    record_failures-limited server "k" now (now + 2) ((now + 1) ∷ []) limited_on no_window
      (refl, tt)

other_key : ◌≢◌ {A = String} "k" "other"
other_key e = ground (arith, eq_iff "k" "other")

record_failures-other_example :
    is_rate_limited_locked (record_failures server "k" (now ∷ now ∷ [])) "other" now
    ≡ is_rate_limited_locked server "other" now
record_failures-other_example =
    record_failures-other server "k" "other" now (now ∷ now ∷ []) other_key

-- Integrity

evaluate_integrity_locked-deny_example :
    (evaluate_integrity_locked env server (client true)).deny ≡ (
      contradicts_release (client true).integrity (exact_release server (client true))
      || admits (client true).integrity)
evaluate_integrity_locked-deny_example = evaluate_integrity_locked-deny env server (client true)

evaluate_integrity_locked-IsRecorded_example :
    let v = evaluate_integrity_locked env server (client true) in
    IsRecorded server (client true) v.server v.deny
evaluate_integrity_locked-IsRecorded_example =
    evaluate_integrity_locked-IsRecorded env server (client true)

evaluate_integrity_locked-score_example :
    let v = evaluate_integrity_locked env server (client true) in
    (n : ℕ) × (v.risk.score ≡ pos n)
    × (10 ≤ n)
    × (n ≤ 100)
    × (v.risk.level ≡ (if leb 80 n then "high" else if leb 45 n then "medium" else "low"))
    × (v.deny ≡ true → (90 ≤ n) × (v.risk.level ≡ "high"))
evaluate_integrity_locked-score_example = evaluate_integrity_locked-score env server (client true)
