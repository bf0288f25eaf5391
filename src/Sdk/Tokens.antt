-- ===== src/Sdk/Tokens.antt =====
-- The client's checks of what the server signs (sdk/go/licenseguard/token.go), against the server's own functions.
use license_guard.Base.{
  String, List, [], ◌∷◌, Bool, false, not, Result, ok, err, ◌>>=◌, Result-cases, is_empty, concat,
  split_on, trim_space, utf8, ◌≡◌, refl, arith, Bool-cases, inl, inr,
}
use license_guard.Types.{LicenseTokenClaims, SignedCapabilityPolicyBundle, Time}
use license_guard.Token.{
  Bytes, Crypto, verify_license_token, check_parts, check_signature, check_payload, check_claims,
}
use license_guard.Token.RoundTrip.{IsLawful}
use license_guard.Capability.Registry.{sign_capability_policy_bundle}
use license_guard.Sdk.{
  ClientEnv, parse_public_key, signed_claims, token_result, unless, sdk_verify_license_token,
  verify_capability_policy_bundle,
}

signed_claims-check_parts :
    (c : Crypto) (key : Bytes) (now : Time) (allow : Bool) (parts : List String)
    → token_result now allow (signed_claims c key parts) ≡ check_parts c key now allow parts
unfolding signed_claims check_parts check_signature check_payload check_claims
signed_claims-check_parts c key now allow [] = refl
signed_claims-check_parts c key now allow (a ∷ []) = refl
signed_claims-check_parts c key now allow (a ∷ b ∷ []) = refl
signed_claims-check_parts c key now allow (a ∷ b ∷ d ∷ []) = elim (Result-cases (c.decode d)) [
  | inr (e, bad) ↦ rw bad refl
  | inl (raw, good) ↦
      rw good (elim (Bool-cases (c.verify key (utf8 (concat (a ∷ "." ∷ b ∷ []))) raw)) [
        | inr f ↦ rw f refl
        | inl t ↦ rw t (decoded (c.decode b))
      ])
]
  where
    read : (r : Result LicenseTokenClaims) → token_result now allow r ≡ check_claims now allow r
    read (ok claims) = refl
    read (err e) = refl

    decoded :
        (r : Result Bytes)
        → token_result now allow (r >>= c.unmarshal_claims) ≡ check_payload c now allow r
    decoded (ok bytes) = read (c.unmarshal_claims bytes)
    decoded (err e) = refl
signed_claims-check_parts c key now allow (a ∷ b ∷ d ∷ e ∷ rest) = refl

-- With a public key that can be read, the client takes a license token for valid, expired or invalid as
-- the server does with that key at the same time, to the same claims or error.
pub sdk_verify_license_token-server :
    (env : ClientEnv) (value token : String) (allow : Bool) (key : Bytes)
    → parse_public_key env value ≡ ok key
    → sdk_verify_license_token env value token allow
      ≡ verify_license_token env.crypto key env.verified_at token allow
unfolding sdk_verify_license_token verify_license_token
sdk_verify_license_token-server env value token allow key h =
    rw h (signed_claims-check_parts env.crypto key env.verified_at allow (split_on b'.' token))

-- A bundle that the server signed passes the client's check.
pub verify-sign_capability_policy_bundle :
    (env : ClientEnv) (value : String) (key private_key : Bytes)
    (signed : SignedCapabilityPolicyBundle)
    → IsLawful env.crypto key private_key
    → parse_public_key env value ≡ ok key
    → is_empty (trim_space signed.signature) ≡ false
    → sign_capability_policy_bundle env.crypto private_key signed.bundle ≡ ok signed.signature
    → verify_capability_policy_bundle env value signed ≡ ok tt
unfolding verify_capability_policy_bundle sign_capability_policy_bundle
verify-sign_capability_policy_bundle env value key private_key signed law h visible made =
    elim (Result-cases (env.crypto.marshal_bundle signed.bundle)) [
      | inr (e, bad) ↦ absurd (ground (arith, bad))
      | inl (payload, good) ↦ rw h (rw visible (rw good (checked payload (rw good at made))))
    ]
  where
    checked :
        (payload : Bytes)
        → (Path
            (Result String)
            (ok (env.crypto.encode (env.crypto.sign private_key payload)))
            (ok signed.signature))
        → (do
          signature ← env.crypto.decode signed.signature
          unless
              (not (env.crypto.verify key payload signature))
              "invalid capability policy signature")
          ≡ ok tt
    checked payload e =
        let same : env.crypto.encode (env.crypto.sign private_key payload) ≡ signed.signature =
          ground (arith, e) in
        rw (← same) (
          rw (law.decode-encode (env.crypto.sign private_key payload))
            (rw (law.verify-sign payload) refl))
