-- ===== src/Token.antt =====
-- internal/licensecore/token.go: license tokens of three base64 parts, signed with Ed25519.
-- Ed25519, base64 and encoding/json are the operations of `Crypto`.
pub mod RoundTrip
use license_guard.Base.{
  ℕ, String, Bool, List, [], ◌∷◌, true, false, not, ◌&&◌, if◌then◌else◌, Result, ok, err, ◌>>=◌,
  concat, split_on, utf8, ltb_ℤ,
}
use license_guard.Types.{LicenseTokenClaims, CapabilityPolicyBundle, Time, unix}

abbrev pub Bytes : Type 0
Bytes = List ℕ

pub record Crypto : Type 0 where
  -- ed25519.Sign(private, message) and ed25519.Verify(public, message, signature)
  pub sign : Bytes → Bytes → Bytes
  pub verify : Bytes → Bytes → Bytes → Bool
  -- base64.RawURLEncoding
  pub encode : Bytes → String
  pub decode : String → Result Bytes
  -- json.Marshal of the header {"alg": "EdDSA", "typ": "LG-LICENSE"}, of claims, of a bundle
  pub marshal_header : Result Bytes
  pub marshal_claims : LicenseTokenClaims → Result Bytes
  pub unmarshal_claims : Bytes → Result LicenseTokenClaims
  pub marshal_bundle : CapabilityPolicyBundle → Result Bytes

-- SignLicenseToken
unfoldable pub sign_license_token : Crypto → Bytes → LicenseTokenClaims → Result String
sign_license_token c private_key claims = do
  header ← c.marshal_header
  payload ← c.marshal_claims claims
  let signing_input = concat (c.encode header ∷ "." ∷ c.encode payload ∷ [])
  let signature = c.sign private_key (utf8 signing_input)
  ok (concat (signing_input ∷ "." ∷ c.encode signature ∷ []))

-- What VerifyLicenseToken returns: claims, claims with ErrTokenExpired, or another error alone.
pub data TokenResult : Type 0 where
  valid : LicenseTokenClaims → TokenResult
  expired : LicenseTokenClaims → TokenResult
  invalid : String → TokenResult

-- The claims are read once the signature is checked.
unfoldable pub check_claims : Time → Bool → Result LicenseTokenClaims → TokenResult
check_claims now allow_expired (err e) = invalid e
check_claims now allow_expired (ok claims) =
    if not allow_expired && ltb_ℤ claims.expires_at (unix now) then expired claims else valid claims

unfoldable pub check_payload : Crypto → Time → Bool → Result Bytes → TokenResult
unfolding check_claims
check_payload c now allow_expired (err e) = invalid e
check_payload c now allow_expired (ok payload) =
    check_claims now allow_expired (c.unmarshal_claims payload)

unfoldable pub check_signature :
    Crypto → Bytes → Time → Bool → String → String → Result Bytes → TokenResult
unfolding check_payload
check_signature c public_key now allow_expired header payload (err e) = invalid e
check_signature c public_key now allow_expired header payload (ok signature) =
    if not (c.verify public_key (utf8 (concat (header ∷ "." ∷ payload ∷ []))) signature)
    then invalid "invalid token signature"
    else check_payload c now allow_expired (c.decode payload)

unfoldable pub check_parts : Crypto → Bytes → Time → Bool → List String → TokenResult
unfolding check_signature
check_parts c public_key now allow_expired (header ∷ payload ∷ signature ∷ []) =
    check_signature c public_key now allow_expired header payload (c.decode signature)
check_parts c public_key now allow_expired _ = invalid "invalid token format"

-- VerifyLicenseToken; `now` is its reading of the clock.
unfoldable pub verify_license_token : Crypto → Bytes → Time → String → Bool → TokenResult
unfolding check_parts
verify_license_token c public_key now token allow_expired =
    check_parts c public_key now allow_expired (split_on b'.' token)
