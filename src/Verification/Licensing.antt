-- ===== src/Verification/Licensing.antt =====
-- The first half of processClientVerification (internal/licensecore/server.go), up to the license: each block of
-- the function is one step, in the order of the source.
use license_guard.Base.{
  ℕ, pos, String, [], ◌∷◌, Bool, true, false, ◌||◌, not, Option, none, some, if◌then◌else◌,
  is_empty, ◌==◌, concat, to_upper, update_first,
}
use license_guard.Types.{
  App, License, DeviceInfo, IntegrityRequest, RiskResult, LicenseTokenClaims, after, text,
}
use license_guard.Token.{TokenResult, valid, verify_license_token}
use license_guard.Server.{Server, Env, Request, hash_string, save_locked, add_risk_event_locked}
use license_guard.Server.Find.{
  find_app_locked, find_license_by_key_locked, find_license_by_id_locked, has_key_hash,
  has_license_id,
}
use license_guard.RateLimit.{
  is_rate_limited_locked, record_rate_limit_failure_locked, rate_limit_key, client_addr,
}
use license_guard.Challenge.{validate_challenge_locked}
use license_guard.Verification.Monad.{Reply, failure, write_denied, stop, go, M}

-- clientVerificationInput
pub record ClientVerificationInput : Type 0 where
  pub app_id : String
  pub platform : String
  pub license_key : String
  pub license_token : String
  pub challenge_id : String
  pub nonce : String
  pub device : DeviceInfo
  pub integrity : IntegrityRequest
  pub is_activation : Bool

-- clientVerificationRateLimitKey
unfoldable pub client_verification_rate_limit_key : Env → ClientVerificationInput → Request → String
client_verification_rate_limit_key env input r = rate_limit_key (
    (if input.is_activation then "activate" else "verify")
    ∷ input.app_id
    ∷ input.device.install_id
    ∷ client_addr env r
    ∷ [])

abbrev pub risk : String → ℕ → String → RiskResult
risk level score action = record { level = level; score = pos score; actions = action ∷ [] }

-- The app, license and claims that a request is about. `is_license` is the test by which the license was
-- found, for writes through the pointer to it.
pub record Subject : Type 0 where
  pub app : App
  pub license : License
  pub is_license : License → Bool
  pub claims : Option LicenseTokenClaims

abbrev pub has_claims : Option LicenseTokenClaims → Bool
has_claims none = false
has_claims (some c) = true

-- `tokenClaims != nil && test(tokenClaims)`
abbrev pub claims_fail : Option LicenseTokenClaims → (LicenseTokenClaims → Bool) → Bool
claims_fail none test = false
claims_fail (some c) test = test c

-- The test of the required fields.
abbrev pub is_incomplete : ClientVerificationInput → Bool
is_incomplete input =
    is_empty input.app_id
    || is_empty input.challenge_id
    || is_empty input.nonce
    || is_empty input.device.install_id
    || is_empty input.device.fingerprint

abbrev pub rate_limited : Reply
rate_limited = failure 429 "RATE_LIMITED" "too many failed attempts, try again later"

module _ (env : Env) (rate_key : String) where
  -- writeVerificationDenied
  unfoldable pub deny {ℓ} : {A : Type ℓ} → String → String → RiskResult → M A
  deny code message risk s =
      stop (record_rate_limit_failure_locked s rate_key (env.time 1527))
        (write_denied code message risk)

  -- `_ = s.saveLocked()` and then writeVerificationDenied
  unfoldable pub save_and_deny {ℓ} : {A : Type ℓ} → String → String → RiskResult → M A
  unfolding deny
  save_and_deny code message risk s = deny code message risk (save_locked env s).0

  unfoldable pub check_rate_limit : M (Unit {0})
  check_rate_limit s =
      if is_rate_limited_locked s rate_key (env.time 1549) then stop s rate_limited else go s tt

  unfoldable pub check_challenge : ClientVerificationInput → M (Unit {0})
  unfolding deny
  check_challenge input s =
      let (s', e) =
        validate_challenge_locked s (env.time 2386) input.app_id input.device.install_id
          input.challenge_id input.nonce in
      elim e [
        | some message ↦ deny "CHALLENGE_INVALID" message (risk "medium" 50 "deny") s'
        | none ↦ go s' tt
      ]

  unfoldable pub require_app : ClientVerificationInput → M App
  unfolding deny
  require_app input s = elim (find_app_locked s input.app_id) [
    | none ↦ deny "APP_NOT_ACTIVE" "应用不存在或已停用" (risk "high" 90 "deny") s
    | some app ↦
        if not (app.status == "active")
        then deny "APP_NOT_ACTIVE" "应用不存在或已停用" (risk "high" 90 "deny") s
        else go s app
  ]

  unfoldable pub require_license :
      App → (License → Bool) → Option LicenseTokenClaims → Option License → M Subject
  unfolding deny
  require_license app is_license claims none =
      deny "INVALID_LICENSE" "授权不存在或不属于当前应用" (risk "high" 82 "deny")
  require_license app is_license claims (some lic) =
      if not (lic.app_id == app.app_key)
      then deny "INVALID_LICENSE" "授权不存在或不属于当前应用" (risk "high" 82 "deny")
      else λ s. go s (record { app = app; license = lic; is_license = is_license; claims = claims })

  unfoldable pub license_of_token : App → TokenResult → M Subject
  unfolding deny require_license
  license_of_token app (valid claims) s =
      require_license app (has_license_id claims.license_id) (some claims)
        (find_license_by_id_locked s claims.license_id) s
  license_of_token app _ s = deny "INVALID_TOKEN" "授权 token 无效" (risk "medium" 55 "deny") s

  -- The license of the request's key, or else of its token.
  unfoldable pub find_subject : ClientVerificationInput → App → M Subject
  unfolding deny require_license license_of_token
  find_subject input app s =
      if not (is_empty input.license_key)
      then require_license app (has_key_hash (hash_string env input.license_key)) none
          (find_license_by_key_locked env s input.license_key) s
      else if not (is_empty input.license_token)
      then license_of_token app
          (verify_license_token env.crypto s.public_key (env.time 1569) input.license_token true) s
      else deny "LICENSE_REQUIRED" "需要 license_key 或 license_token" (risk "medium" 55 "deny") s

  -- The write `lic.Status = "expired"`.
  unfoldable pub expire_license : (License → Bool) → Server → Server
  expire_license is_license s = record s {
    contents = record s.contents {
      licenses = update_first is_license (λ l. record l { status = "expired" }) s.contents.licenses;
    };
  }

  unfoldable pub check_license : Subject → M (Unit {0})
  unfolding deny save_and_deny expire_license
  check_license subject s =
      let lic = subject.license in
      if not (lic.status == "active")
      then deny (concat ("LICENSE_" ∷ to_upper lic.status ∷ [])) "授权不可用" (risk "high" 85 "deny") s
      else if after (env.time 1589) lic.expires_at
      then save_and_deny "LICENSE_EXPIRED" "授权已过期" (risk "medium" 65 "deny")
          (expire_license subject.is_license s)
      else go s tt

  unfoldable pub check_token_app : Subject → M (Unit {0})
  unfolding save_and_deny
  check_token_app subject s =
      if claims_fail subject.claims (λ c. not (c.app_id == subject.app.app_key))
      then save_and_deny "TOKEN_APP_MISMATCH" "授权 token 不属于当前应用" (risk "high" 92 "deny") (
          add_risk_event_locked env 1596 subject.app.app_key "" subject.license.id
            "token_app_mismatch" "high" "deny" "授权 token 不属于当前应用"
            (some
              (elim subject.claims [ none ↦ [] | some c ↦ ("token_app_id", text c.app_id) ∷ [] ]))
            s)
      else go s tt
