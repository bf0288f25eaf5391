-- ===== src/Sdk/Offline.antt =====
-- What the client allows without the server (sdk/go/licenseguard/token.go, CachedAuthorization and IsAllowed).
use license_guard.Base.{
  String, Bool, true, false, not, ℤ, pos, Option, Result, ok, err, is_empty, ◌==◌, eq_iff, ◌≡◌, ◌↔◌,
  refl, sym, ◌∙◌, ap, arith, Bool-cases, inl, inr, split_on, List, [], ◌∷◌, IsIn, ◌⊎◌, ◌≢◌, ◌≤ℤ◌,
  subst, some,
}
use license_guard.Types.{LicenseTokenClaims, SignedCapabilityPolicyBundle, Time}
use license_guard.Token.{Bytes, TokenResult, valid, expired, invalid, verify_license_token}
use license_guard.Sdk.{
  ClientEnv, Options, CachedToken, CachedAuthorization, parse_public_key, signed_claims,
  token_result, unless, claims_of, sdk_verify_license_token, check_policy, grace_unix,
  signed_authorization, unix_time, cached_authorization, current_entitlements, sdk_has_entitlement,
  is_allowed, parse_cache_unix,
}
use license_guard.Sdk.Tokens.{sdk_verify_license_token-server}
use license_guard.Sdk.Vouched.{>>=-ok, >>-ok, IsVouched, check_policy-IsVouched}

-- The time has come no further than the expiry of claims, or than the end of a grace, in seconds.
abbrev pub IsTimely : Time → ℤ → LicenseTokenClaims → Type 0
IsTimely now grace claims =
    (pos now ≤ℤ unix_time claims.expires_at) ⊎ ((pos 1 ≤ℤ grace) × (pos now ≤ℤ unix_time grace))

-- What stands behind a cache that is taken for good.
pub record IsTrusted (env : ClientEnv) (options : Options) (loaded : Result CachedToken)
    (cached : CachedToken) (key : Bytes) (claims : LicenseTokenClaims) : Type 0 where
  pub is_loaded : loaded ≡ ok cached
  pub has_key : parse_public_key env options.public_key ≡ ok key
  pub signed :
      verify_license_token env.crypto key env.verified_at cached.license_token true ≡ valid claims
  pub of_app : claims.app_id ≡ options.app_id
  pub policy :
      (b : SignedCapabilityPolicyBundle)
      → cached.capability_policy ≡ some b
      → IsVouched env options key b

signed_authorization-allowed :
    (now : Time) (grace : ℤ) (policy : Option SignedCapabilityPolicyBundle)
    (claims : LicenseTokenClaims)
    → ((signed_authorization now grace policy claims).allowed ≡ true) ↔ IsTimely now grace claims
unfolding signed_authorization
signed_authorization-allowed now grace policy claims = (λ h. ground arith, λ h. ground arith)

claims_of-ok :
    (r : TokenResult) {claims : LicenseTokenClaims} → claims_of r ≡ ok claims → r ≡ valid claims
claims_of-ok (valid c) h = ground (arith, h)
claims_of-ok (expired c) h = absurd (ground (arith, h))
claims_of-ok (invalid e) h = absurd (ground (arith, h))

token_result-valid :
    (now : Time) (allow : Bool) (r : Result LicenseTokenClaims) {claims : LicenseTokenClaims}
    → token_result now allow r ≡ valid claims
    → r ≡ ok claims
token_result-valid now allow (ok c) h = ground (arith, h)
token_result-valid now allow (err e) h = absurd (ground (arith, h))

verified_key :
    (env : ClientEnv) (value token : String) (allow : Bool) {claims : LicenseTokenClaims}
    → sdk_verify_license_token env value token allow ≡ valid claims
    → (key : Bytes) × (parse_public_key env value ≡ ok key)
      × (verify_license_token env.crypto key env.verified_at token allow ≡ valid claims)
unfolding sdk_verify_license_token
verified_key env value token allow h =
    let (key, parsed, rest) =
      >>=-ok (parse_public_key env value) (λ k. signed_claims env.crypto k (split_on b'.' token))
        (token_result-valid env.verified_at allow _ h) in
    (key, parsed, sym (sdk_verify_license_token-server env value token allow key parsed) ∙ h)

trusted_claims :
    (env : ClientEnv) (options : Options) (cached : CachedToken) (key : Bytes)
    (claims : LicenseTokenClaims)
    → parse_public_key env options.public_key ≡ ok key
    → verify_license_token env.crypto key env.verified_at cached.license_token true ≡ valid claims
    → claims_of (sdk_verify_license_token env options.public_key cached.license_token true)
      ≡ ok claims
trusted_claims env options cached key claims parsed signed = ap claims_of (
    sdk_verify_license_token-server env options.public_key cached.license_token true key parsed
    ∙ signed)

-- An authorization by a public key is the one by the signed claims of the cache.
pub cached_authorization-ok :
    (env : ClientEnv) (options : Options) (loaded : Result CachedToken) {auth : CachedAuthorization}
    → is_empty options.public_key ≡ false
    → cached_authorization env options loaded ≡ ok auth
    → (cached : CachedToken) × (key : Bytes) × (claims : LicenseTokenClaims) × IsTrusted env options
        loaded cached key claims
      × (signed_authorization env.now (grace_unix env cached claims) cached.capability_policy claims
          ≡ auth)
unfolding cached_authorization
cached_authorization-ok env options (err e) keyed h = absurd (ground (arith, h))
cached_authorization-ok env options (ok cached) keyed h =
    let (claims, read, rest) = >>=-ok _ _ (rw keyed at h) in
    let (u, same_app, rest') =
      >>-ok (unless (not (claims.app_id == options.app_id)) "cached token app mismatch") _ rest in
    let (u', checked, last) = >>-ok (check_policy env options cached.capability_policy) _ rest' in
    let (key, parsed, signed) =
      verified_key env options.public_key cached.license_token true (claims_of-ok _ read) in
    (
      cached,
      key,
      claims,
      record {
        is_loaded = refl;
        has_key = parsed;
        signed = signed;
        of_app = ground (arith, same_app, eq_iff claims.app_id options.app_id);
        policy = (check_policy-IsVouched env options key cached.capability_policy parsed).0 checked;
      },
      ground (arith, last),
    )

pub cached_authorization-IsTrusted :
    (env : ClientEnv) (options : Options) (loaded : Result CachedToken) {cached : CachedToken}
    {key : Bytes} {claims : LicenseTokenClaims}
    → is_empty options.public_key ≡ false
    → IsTrusted env options loaded cached key claims
    → cached_authorization env options loaded
      ≡ ok (
          signed_authorization env.now
            (grace_unix env cached claims)
            cached.capability_policy
            claims)
unfolding cached_authorization
cached_authorization-IsTrusted env options loaded {cached} {key} {claims} keyed h = rw h.is_loaded (
    rw keyed (
      rw (trusted_claims env options cached key claims h.has_key h.signed) (
        rw ((eq_iff claims.app_id options.app_id).1 h.of_app) (
          rw
            ((check_policy-IsVouched env options key cached.capability_policy h.has_key).1 h.policy)
            refl))))

sdk_has_entitlement-IsIn :
    (entitlements : List String) (required : String)
    → (sdk_has_entitlement entitlements required ≡ true) ↔ IsIn required entitlements
unfolding sdk_has_entitlement
sdk_has_entitlement-IsIn [] required = (λ h. absurd (ground arith), λ h. absurd h)
sdk_has_entitlement-IsIn (x ∷ xs) required = (
  λ h. ground (arith, sdk_has_entitlement-IsIn xs required, eq_iff x required),
  λ h. ground (arith, sdk_has_entitlement-IsIn xs required, eq_iff x required),
)

-- The end of the grace is the token's, or the one of the cache if the token names none.
abbrev pub IsGraceOf : ClientEnv → CachedToken → LicenseTokenClaims → ℤ → Type 0
IsGraceOf env cached claims grace =
    (claims.offline_grace_until ≢ pos 0 → grace ≡ claims.offline_grace_until)
    × (claims.offline_grace_until ≡ pos 0 → grace ≡ parse_cache_unix env cached.offline_grace_until)

grace_unix-IsGraceOf :
    (env : ClientEnv) (cached : CachedToken) (claims : LicenseTokenClaims)
    → IsGraceOf env cached claims (grace_unix env cached claims)
unfolding grace_unix
grace_unix-IsGraceOf env cached claims = (λ h. ground arith, λ h. ground arith)

IsGraceOf-unique :
    (env : ClientEnv) (cached : CachedToken) (claims : LicenseTokenClaims) (grace : ℤ)
    → IsGraceOf env cached claims grace
    → grace ≡ grace_unix env cached claims
unfolding grace_unix
IsGraceOf-unique env cached claims grace (token, cache) = ground arith

-- What a client that has a public key needs to allow a feature by itself.
pub record IsOffline (env : ClientEnv) (options : Options) (loaded : Result CachedToken)
    (feature : String) : Type 0 where
  pub cached : CachedToken
  pub key : Bytes
  pub claims : LicenseTokenClaims
  pub trusted : IsTrusted env options loaded cached key claims
  pub grace : ℤ
  pub is_grace : IsGraceOf env cached claims grace
  pub timely : IsTimely env.now grace claims
  pub entitled : IsIn feature claims.entitlements

entitled-allowed :
    (auth : Result CachedAuthorization) (feature : String)
    → sdk_has_entitlement (current_entitlements auth) feature ≡ true
    → (a : CachedAuthorization) × (auth ≡ ok a)
      × (a.allowed ≡ true)
      × (sdk_has_entitlement a.entitlements feature ≡ true)
unfolding current_entitlements sdk_has_entitlement
entitled-allowed (err e) feature h = absurd (ground (arith, h))
entitled-allowed (ok a) feature h = elim (Bool-cases a.allowed) [
  | inl t ↦ (a, refl, t, rw t at h)
  | inr f ↦ absurd (ground (arith, rw f at h))
]

-- A client that has a public key allows a feature by itself exactly if its cache holds a token that was
-- signed with the key for this app, whose expiry or offline grace the time does not exceed, and whose
-- entitlements have the feature; and the cached policies, if there are any, carry a signature that is
-- not blank and that the key verifies, and name this app too. The grace is the token's, or the one of the
-- cache if the token names none.
pub is_allowed-IsOffline :
    (env : ClientEnv) (options : Options) (loaded : Result CachedToken) (feature : String)
    → is_empty options.public_key ≡ false
    → (is_allowed env options loaded feature ≡ true) ↔ IsOffline env options loaded feature
unfolding is_allowed current_entitlements signed_authorization
is_allowed-IsOffline env options loaded feature keyed = (only_if, if_so)
  where
    only_if : is_allowed env options loaded feature ≡ true → IsOffline env options loaded feature
    only_if h =
        let (a, done, allowed, entitled) =
          entitled-allowed (cached_authorization env options loaded) feature h in
        let (cached, key, claims, trusted, same) =
          cached_authorization-ok env options loaded keyed done in
        record {
          cached = cached;
          key = key;
          claims = claims;
          trusted = trusted;
          grace = grace_unix env cached claims;
          is_grace = grace_unix-IsGraceOf env cached claims;
          timely =
              (signed_authorization-allowed env.now (grace_unix env cached claims)
                  cached.capability_policy claims).0
                (ap (λ x. x.allowed) same ∙ allowed);
          entitled =
              (sdk_has_entitlement-IsIn claims.entitlements feature).0
                (ap (λ x. sdk_has_entitlement x.entitlements feature) same ∙ entitled);
        }

    if_so : IsOffline env options loaded feature → is_allowed env options loaded feature ≡ true
    if_so h = rw (cached_authorization-IsTrusted env options loaded keyed h.trusted) (
        rw
          ((signed_authorization-allowed env.now (grace_unix env h.cached h.claims)
              h.cached.capability_policy h.claims).1
            (subst (λ g. IsTimely env.now g h.claims)
              (IsGraceOf-unique env h.cached h.claims h.grace h.is_grace) h.timely))
          ((sdk_has_entitlement-IsIn h.claims.entitlements feature).1 h.entitled))
