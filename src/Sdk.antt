-- ===== src/Sdk.antt =====
-- The Go client (sdk/go/licenseguard): how it keeps what the server answered, and decides without the
-- server what is allowed (token.go, cache_other.go and parts of client.go). LicenseTokenClaims, VerifyResult
-- and SignedCapabilityPolicyBundle have the fields and JSON names of the server's structs, and are the same
-- records here. A time of the client is in nanoseconds since the year 1, and may lie before it.
pub mod Tokens
pub mod Vouched
pub mod Offline
pub mod Kept
use license_guard.Base.{
  ℕ, suc, ◌+◌, ◌*◌, ◌/◌, eqb, ℤ, pos, negsuc, sub_ℕ, ltb_ℤ, leb_ℤ, String, List, [], ◌∷◌, Bool,
  true, false, not, ◌&&◌, Option, none, some, if◌then◌else◌, is_empty, ◌==◌, Result, ok, err, ◌>>=◌,
  ◌>>◌, concat, trim_space, trim_prefix, split_on, utf8, length,
}
use license_guard.Types.{
  LicenseTokenClaims, CapabilityPolicyBundle, SignedCapabilityPolicyBundle, VerifyResponse, Time,
  second, unix,
}
use license_guard.Token.{Bytes, Crypto, TokenResult, valid, expired, invalid}

-- What is outside of the client while it checks its cache.
pub record ClientEnv : Type 0 where
  pub crypto : Crypto
  -- base64.StdEncoding.DecodeString
  pub decode_std : String → Result Bytes
  -- time.Now() in VerifyLicenseToken and in CachedAuthorization
  pub verified_at : Time
  pub now : Time
  -- time.Parse(time.RFC3339, …), and Format with the layout of RFC 3339
  pub parse_time : String → Option ℤ
  pub format_time : Time → String

-- The options that the functions here read.
pub record Options : Type 0 where
  pub app_id : String
  pub public_key : String

pub record CachedToken : Type 0 where
  pub license_token : String
  pub expires_at : String
  pub offline_grace_until : String
  pub entitlements : List String
  pub capability_policy : Option SignedCapabilityPolicyBundle

pub record CachedAuthorization : Type 0 where
  pub allowed : Bool
  pub requires_online : Bool
  pub in_offline_grace : Bool
  pub expires_at : Option ℤ
  pub offline_grace_until : Option ℤ
  pub entitlements : List String
  pub capability_policy : Option SignedCapabilityPolicyBundle
  pub claims : Option LicenseTokenClaims

-- `if b { return err }`
abbrev pub unless : Bool → String → Result (Unit {0})
unless b e = if b then err e else ok tt

-- base64 of either alphabet
abbrev pub or_other {ℓ} : {A : Type ℓ} → Result A → Result A → Result A
or_other (ok a) other = ok a
or_other (err e) other = other

-- ParsePublicKey
unfoldable pub parse_public_key : ClientEnv → String → Result Bytes
parse_public_key env value = do
  let key = trim_prefix (trim_prefix (trim_space value) "ed25519:") "lgpk_"
  unless (is_empty key) "license guard public key is required"
  raw ← or_other (env.decode_std key) (env.crypto.decode key)
  unless (not (eqb (length raw) 32)) "invalid ed25519 public key length"
  ok raw

-- The signed claims of the parts of a token.
unfoldable pub signed_claims : Crypto → Bytes → List String → Result LicenseTokenClaims
signed_claims c public_key (header ∷ payload ∷ signature ∷ []) = do
  raw ← c.decode signature
  unless (not (c.verify public_key (utf8 (concat (header ∷ "." ∷ payload ∷ []))) raw))
      "invalid token signature"
  bytes ← c.decode payload
  c.unmarshal_claims bytes
signed_claims c public_key _ = err "invalid token format"

abbrev pub check_time : Time → Bool → LicenseTokenClaims → TokenResult
check_time now allow_expired claims =
    if not allow_expired && ltb_ℤ claims.expires_at (unix now) then expired claims else valid claims

abbrev pub token_result : Time → Bool → Result LicenseTokenClaims → TokenResult
token_result now allow_expired (ok claims) = check_time now allow_expired claims
token_result now allow_expired (err e) = invalid e

-- VerifyLicenseToken of the client
unfoldable pub sdk_verify_license_token : ClientEnv → String → String → Bool → TokenResult
unfolding signed_claims
sdk_verify_license_token env public_key_value token allow_expired =
    token_result env.verified_at allow_expired (do
      public_key ← parse_public_key env public_key_value
      signed_claims env.crypto public_key (split_on b'.' token))

-- VerifyCapabilityPolicyBundle
unfoldable pub verify_capability_policy_bundle :
    ClientEnv → String → SignedCapabilityPolicyBundle → Result (Unit {0})
verify_capability_policy_bundle env public_key_value signed = do
  public_key ← parse_public_key env public_key_value
  unless (is_empty (trim_space signed.signature)) "capability policy signature is required"
  payload ← env.crypto.marshal_bundle signed.bundle
  signature ← env.crypto.decode signed.signature
  unless (not (env.crypto.verify public_key payload signature))
      "invalid capability policy signature"

-- time.Unix(seconds, 0)
unfoldable pub unix_time : ℤ → ℤ
unix_time (pos n) = pos ((n + 62135596800) * second)
unix_time (negsuc n) = sub_ℕ (62135596800 * second) (suc n * second)

-- t.Unix()
abbrev pub to_unix : ℤ → ℤ
to_unix (pos n) = unix n
to_unix (negsuc n) = negsuc (n / second + 62135596800)

-- `now.Before(t) || now.Equal(t)`
abbrev pub no_later : Time → ℤ → Bool
no_later now t = leb_ℤ (pos now) t

-- parseCacheTimePtr
unfoldable pub parse_cache_time_ptr : ClientEnv → String → Option ℤ
parse_cache_time_ptr env value = if is_empty value then none else env.parse_time value

-- cachedTokenTimeValid
unfoldable pub cached_token_time_valid : ClientEnv → String → Bool
unfolding parse_cache_time_ptr
cached_token_time_valid env value = elim (parse_cache_time_ptr env value) [
  | none ↦ false
  | some t ↦ no_later env.now t
]

-- parseCacheUnix
unfoldable pub parse_cache_unix : ClientEnv → String → ℤ
unfolding parse_cache_time_ptr
parse_cache_unix env value = elim (parse_cache_time_ptr env value) [
  | none ↦ pos 0
  | some t ↦ to_unix t
]

-- The authorization of a client that has no public key.
unfoldable pub unsigned_authorization : ClientEnv → CachedToken → CachedAuthorization
unfolding cached_token_time_valid
unsigned_authorization env cached =
    let in_time = cached_token_time_valid env cached.expires_at in
    let in_grace = not in_time && cached_token_time_valid env cached.offline_grace_until in
    record {
      allowed = if in_grace then true else in_time;
      requires_online = if in_grace then true else not in_time;
      in_offline_grace = in_grace;
      expires_at = parse_cache_time_ptr env cached.expires_at;
      offline_grace_until = parse_cache_time_ptr env cached.offline_grace_until;
      entitlements = cached.entitlements;
      capability_policy = none;
      claims = none;
    }

-- `claims, err := VerifyLicenseToken(…)`, where an error ends the function.
abbrev pub claims_of : TokenResult → Result LicenseTokenClaims
claims_of (valid claims) = ok claims
claims_of (expired claims) = err "license token expired"
claims_of (invalid e) = err e

-- The check of the cached policies.
unfoldable pub check_policy :
    ClientEnv → Options → Option SignedCapabilityPolicyBundle → Result (Unit {0})
unfolding verify_capability_policy_bundle
check_policy env options none = ok tt
check_policy env options (some signed) = do
  verify_capability_policy_bundle env options.public_key signed
  unless (not (signed.bundle.app_id == options.app_id)) "cached capability policy app mismatch"

-- The end of the offline grace, in seconds.
unfoldable pub grace_unix : ClientEnv → CachedToken → LicenseTokenClaims → ℤ
unfolding parse_cache_unix
grace_unix env cached claims = elim claims.offline_grace_until [
  | pos n ↦ if eqb n 0 then parse_cache_unix env cached.offline_grace_until else pos n
  | negsuc n ↦ negsuc n
]

-- The authorization by signed claims, at a time.
unfoldable pub signed_authorization :
    Time → ℤ → Option SignedCapabilityPolicyBundle → LicenseTokenClaims → CachedAuthorization
unfolding unix_time
signed_authorization now grace policy claims =
    let in_time = no_later now (unix_time claims.expires_at) in
    let has_grace = not in_time && ltb_ℤ (pos 0) grace in
    let in_grace = has_grace && no_later now (unix_time grace) in
    record {
      allowed = if in_time then true else in_grace;
      requires_online = in_grace;
      in_offline_grace = in_grace;
      expires_at = some (unix_time claims.expires_at);
      offline_grace_until = if has_grace then some (unix_time grace) else none;
      entitlements = claims.entitlements;
      capability_policy = policy;
      claims = some claims;
    }

-- CachedAuthorization, on what LoadToken returns.
unfoldable pub cached_authorization :
    ClientEnv → Options → Result CachedToken → Result CachedAuthorization
unfolding sdk_verify_license_token check_policy signed_authorization unsigned_authorization
    grace_unix
cached_authorization env options loaded = do
  cached ← loaded
  let offline = do
    claims ← claims_of (sdk_verify_license_token env options.public_key cached.license_token true)
    unless (not (claims.app_id == options.app_id)) "cached token app mismatch"
    check_policy env options cached.capability_policy
    ok (signed_authorization env.now (grace_unix env cached claims) cached.capability_policy claims)
  if is_empty options.public_key then ok (unsigned_authorization env cached) else offline

-- HasEntitlement
unfoldable pub sdk_has_entitlement : List String → String → Bool
sdk_has_entitlement [] required = false
sdk_has_entitlement (entitlement ∷ rest) required =
    let more = sdk_has_entitlement rest required in if entitlement == required then true else more

-- CurrentEntitlements
unfoldable pub current_entitlements : Result CachedAuthorization → List String
current_entitlements (err e) = []
current_entitlements (ok auth) = if not auth.allowed then [] else auth.entitlements

-- IsAllowed
unfoldable pub is_allowed : ClientEnv → Options → Result CachedToken → String → Bool
unfolding cached_authorization current_entitlements
is_allowed env options loaded feature =
    sdk_has_entitlement (current_entitlements (cached_authorization env options loaded)) feature

-- `if t != nil { … = t.Format(…) }`
abbrev pub format_ptr : ClientEnv → Option Time → String
format_ptr env none = ""
format_ptr env (some t) = env.format_time t

-- The cache that SaveToken writes.
unfoldable pub cached_token : ClientEnv → VerifyResponse → CachedToken
cached_token env result = record {
  license_token = result.license_token;
  expires_at = format_ptr env result.expires_at;
  offline_grace_until = format_ptr env result.offline_grace_until;
  entitlements = result.entitlements;
  capability_policy = result.capability_policy;
}

-- What Activate and VerifyWithToken leave in the cache, where the file can be written.
unfoldable pub keep_result : ClientEnv → VerifyResponse → Result CachedToken → Result CachedToken
unfolding cached_token
keep_result env result old =
    if result.allowed && not (is_empty result.license_token)
    then ok (cached_token env result)
    else old
