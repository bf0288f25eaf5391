-- ===== src/Sdk/Kept.antt =====
-- From the server's reply (internal/licensecore/server.go, processClientVerification) to what the client does with it
-- offline (sdk/go/licenseguard).
use license_guard.Base.{
  String, [], ◌∷◌, true, false, Option, none, some, Result, ok, Result-cases, is_empty, eq_iff,
  trim_space, trim_prefix, trim_space-empty, trim_prefix-empty, concat, concat-head, concat-tail,
  utf8, ◌≡◌, refl, sym, ◌∙◌, ap, subst, arith, Bool-cases, inl, inr,
}
use license_guard.Types.{
  App, LicenseTokenClaims, VerifyResponse, SignedCapabilityPolicyBundle, Time, unix,
}
use license_guard.Token.{Bytes, Crypto, sign_license_token}
use license_guard.Token.RoundTrip.{IsLawful, verify-sign_license_token}
use license_guard.Server.{Server, Env, Request}
use license_guard.Server.Find.{find_app_locked}
use license_guard.Capability.Registry.{sign_capability_policy_bundle}
use license_guard.Capability.Signing.{IsSigned}
use license_guard.Verification.Monad.{verify}
use license_guard.Verification.Licensing.{ClientVerificationInput}
use license_guard.Verification.Granted.{process_client_verification-IsGranted}
use license_guard.Verification.{process_client_verification}
use license_guard.Sdk.{
  ClientEnv, Options, CachedToken, parse_public_key, check_policy, no_later, unix_time,
  signed_authorization, current_entitlements, sdk_has_entitlement, is_allowed, cached_token,
  keep_result,
}
use license_guard.Sdk.Tokens.{verify-sign_capability_policy_bundle}
use license_guard.Sdk.Vouched.{check_policy-IsVouched}
use license_guard.Sdk.Offline.{IsTrusted, cached_authorization-IsTrusted}

parse_public_key-not_empty :
    (client : ClientEnv) (value : String) {key : Bytes}
    → parse_public_key client value ≡ ok key
    → is_empty value ≡ false
unfolding parse_public_key
parse_public_key-not_empty client value h = elim (Bool-cases (is_empty value)) [
  | inr f ↦ f
  | inl t ↦
      let none_left : is_empty (trim_prefix (trim_prefix (trim_space value) "ed25519:") "lgpk_")
          ≡ true =
        rw ((eq_iff value "").0 t)
          (rw trim_space-empty (rw trim_prefix-empty (rw trim_prefix-empty refl))) in
      absurd (ground (arith, rw none_left at h))
]

-- A token has the full stops between its parts.
sign_license_token-not_empty :
    (c : Crypto) (private_key : Bytes) (claims : LicenseTokenClaims) {token : String}
    → sign_license_token c private_key claims ≡ ok token
    → is_empty token ≡ false
unfolding sign_license_token
sign_license_token-not_empty c private_key claims {token} h = elim (Result-cases c.marshal_header) [
  | inr (e, bad) ↦ absurd (ground (arith, rw bad at h))
  | inl (header, he) ↦ elim (Result-cases (c.marshal_claims claims)) [
    | inr (e, bad) ↦ absurd (ground (arith, rw (he, bad) at h))
    | inl (payload, pe) ↦ joined header payload (rw (he, pe) at h)
  ]
]
  where
    joined :
        (header payload : Bytes)
        → (let input = concat (c.encode header ∷ "." ∷ c.encode payload ∷ []) in
            Path
              (Result String)
              (ok (concat (input ∷ "." ∷ c.encode (c.sign private_key (utf8 input)) ∷ [])))
              (ok token))
        → is_empty token ≡ false
    joined header payload e =
        let input = concat (c.encode header ∷ "." ∷ c.encode payload ∷ []) in
        let rest = c.encode (c.sign private_key (utf8 input)) ∷ [] in
        let same : concat (input ∷ "." ∷ rest) ≡ token = ground (arith, e) in
        subst (λ t. is_empty t ≡ false) same
          (concat-tail input ("." ∷ rest) (concat-head "." rest refl))

module _ (client : ClientEnv) (options : Options) (key private_key : Bytes)
    (law : IsLawful client.crypto key private_key)
    (parsed : parse_public_key client options.public_key ≡ ok key)
    (visible : (m : Bytes)
      → is_empty (trim_space (client.crypto.encode (client.crypto.sign private_key m)))
        ≡ false) where
  made-visible :
      (b : SignedCapabilityPolicyBundle)
      → sign_capability_policy_bundle client.crypto private_key b.bundle ≡ ok b.signature
      → is_empty (trim_space b.signature) ≡ false
  unfolding sign_capability_policy_bundle
  made-visible b h = elim (Result-cases (client.crypto.marshal_bundle b.bundle)) [
    | inr (e, bad) ↦ absurd (ground (arith, rw bad at h))
    | inl (payload, good) ↦ of_payload payload (rw good at h)
  ]
    where
      of_payload :
          (payload : Bytes)
          → Path
              (Result String)
              (ok (client.crypto.encode (client.crypto.sign private_key payload)))
              (ok b.signature)
          → is_empty (trim_space b.signature) ≡ false
      of_payload payload e =
          subst (λ t. is_empty (trim_space t) ≡ false) (ground (arith, e)) (visible payload)

  check_policy-IsSigned :
      (policy : Option SignedCapabilityPolicyBundle)
      → ((b : SignedCapabilityPolicyBundle)
          → policy ≡ some b
          → IsSigned client.crypto private_key options.app_id b)
      → check_policy client options policy ≡ ok tt
  unfolding check_policy
  check_policy-IsSigned none h = refl
  check_policy-IsSigned (some b) h =
      let signed = h b refl in
      rw
        (verify-sign_capability_policy_bundle client options.public_key key private_key b law parsed
          (made-visible b signed.made) signed.made)
        (rw ((eq_iff b.bundle.app_id options.app_id).1 signed.for_app) refl)

  kept-IsTrusted :
      (v : VerifyResponse) (old : Result CachedToken) (claims : LicenseTokenClaims)
      → v.allowed ≡ true
      → sign_license_token client.crypto private_key claims ≡ ok v.license_token
      → claims.app_id ≡ options.app_id
      → ((b : SignedCapabilityPolicyBundle)
          → v.capability_policy ≡ some b
          → IsSigned client.crypto private_key options.app_id b)
      → IsTrusted client options (keep_result client v old) (cached_token client v) key claims
  unfolding keep_result cached_token
  kept-IsTrusted v old claims allowed signed of_app policies = record {
    is_loaded =
        rw (allowed, sign_license_token-not_empty client.crypto private_key claims signed) refl;
    has_key = parsed;
    signed =
        verify-sign_license_token client.crypto key private_key claims v.license_token
          client.verified_at true law signed;
    of_app = of_app;
    policy =
        (check_policy-IsVouched client options key v.capability_policy parsed).0
          (check_policy-IsSigned v.capability_policy policies);
  }

  kept-is_allowed :
      (v : VerifyResponse) (old : Result CachedToken) (claims : LicenseTokenClaims)
      (feature : String)
      → IsTrusted client options (keep_result client v old) (cached_token client v) key claims
      → no_later client.now (unix_time claims.expires_at) ≡ true
      → is_allowed client options (keep_result client v old) feature
        ≡ sdk_has_entitlement claims.entitlements feature
  unfolding is_allowed current_entitlements signed_authorization
  kept-is_allowed v old claims feature trusted timely =
      rw
        (cached_authorization-IsTrusted client options (keep_result client v old)
          (parse_public_key-not_empty client options.public_key parsed) trusted)
        (rw timely refl)

-- A client that was let run, and keeps the reply, is by itself allowed the entitlements of the reply,
-- and no other feature, up to the expiry that the reply names, in whole seconds. It needs the server's public key and
-- the same app key as the server has for the app; and Ed25519, base64 and JSON are lawful for the
-- server's key pair, and a signature in base64 is not blank.
pub kept_reply-is_allowed :
    (env : Env) (s : Server) (r : Request) (input : ClientVerificationInput) (v : VerifyResponse)
    → (process_client_verification env s r input).1 ≡ verify v
    → v.allowed ≡ true
    → (client : ClientEnv) (options : Options) (old : Result CachedToken) (feature : String)
      (t : Time)
    → client.crypto ≡ env.crypto
    → IsLawful env.crypto s.public_key s.private_key
    → ((m : Bytes)
        → is_empty (trim_space (env.crypto.encode (env.crypto.sign s.private_key m))) ≡ false)
    → parse_public_key client options.public_key ≡ ok s.public_key
    → ((app : App) → find_app_locked s input.app_id ≡ some app → options.app_id ≡ app.app_key)
    → v.expires_at ≡ some t
    → no_later client.now (unix_time (unix t)) ≡ true
    → is_allowed client options (keep_result client v old) feature
      ≡ sdk_has_entitlement v.entitlements feature
kept_reply-is_allowed env s r input v h allowed client options old feature t same law visible parsed
      app_key until timely =
    let granted = process_client_verification-IsGranted env s r input v h allowed in
    let saved = granted.is_saved in
    let claims = saved.claims in
    let key_of = app_key granted.subject.app granted.licensed.app in
    let (t', named, ends) = saved.expiry in
    let law' : IsLawful client.crypto s.public_key s.private_key =
      subst (λ c. IsLawful c s.public_key s.private_key) (sym same) law in
    let visible' : (m : Bytes)
        → is_empty (trim_space (client.crypto.encode (client.crypto.sign s.private_key m)))
          ≡ false =
      subst (λ c. (m : Bytes) → is_empty (trim_space (c.encode (c.sign s.private_key m))) ≡ false)
        (sym same) visible in
    let trusted =
      kept-IsTrusted client options s.public_key s.private_key law' parsed visible' v old claims
        allowed
        (subst (λ c. sign_license_token c s.private_key claims ≡ ok v.license_token) (sym same)
          saved.signed)
        (saved.of_app ∙ sym key_of)
        (λ b e.
          subst (λ c. IsSigned c s.private_key options.app_id b) (sym same)
            (subst (λ a. IsSigned env.crypto s.private_key a b) (sym key_of)
              (saved.policies b e))) in
    let expiry : claims.expires_at ≡ unix t = ends ∙ ap unix (ground (arith, until, named)) in
    kept-is_allowed client options s.public_key s.private_key law' parsed visible' v old claims
      feature trusted (ap (λ x. no_later client.now (unix_time x)) expiry ∙ timely)
    ∙ ap (λ e. sdk_has_entitlement e feature) (saved.entitled ∙ sym saved.listed)
