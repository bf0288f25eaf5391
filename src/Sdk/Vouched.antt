-- ===== src/Sdk/Vouched.antt =====
-- What the client's check of cached policies accepts (sdk/go/licenseguard/token.go,
-- VerifyCapabilityPolicyBundle and its use in CachedAuthorization).
use license_guard.Base.{
  String, Bool, true, false, Option, Result, ok, err, ◌>>=◌, ◌>>◌, is_empty, eq_iff, ◌≡◌, ◌↔◌, refl,
  arith, ◌≢◌, trim_space, subst, none, some,
}
use license_guard.Types.{SignedCapabilityPolicyBundle}
use license_guard.Token.{Bytes}
use license_guard.Sdk.{
  ClientEnv, Options, parse_public_key, unless, check_policy, verify_capability_policy_bundle,
}

-- Policies that were signed with a key, for the app of the options.
pub record IsVouched (env : ClientEnv) (options : Options) (key : Bytes)
    (b : SignedCapabilityPolicyBundle) : Type 0 where
  pub visible : trim_space b.signature ≢ ""
  pub payload : Bytes
  pub encoded : env.crypto.marshal_bundle b.bundle ≡ ok payload
  pub signature : Bytes
  pub decoded : env.crypto.decode b.signature ≡ ok signature
  pub verified : env.crypto.verify key payload signature ≡ true
  pub for_app : b.bundle.app_id ≡ options.app_id

-- A computation in `Result` that gives a value does so at each step.
pub >>=-ok {ℓ κ} :
    {A : Type ℓ} {B : Type κ} (r : Result A) (f : A → Result B) {b : B}
    → (r >>= f) ≡ ok b
    → (a : A) × (r ≡ ok a) × (f a ≡ ok b)
>>=-ok (ok a) f h = (a, refl, h)
>>=-ok (err e) f h = absurd (ground arith)

pub >>-ok {ℓ κ} :
    {A : Type ℓ} {B : Type κ} (r : Result A) (r' : Result B) {b : B}
    → (r >> r') ≡ ok b
    → (a : A) × (r ≡ ok a) × (r' ≡ ok b)
>>-ok (ok a) r' h = (a, refl, h)
>>-ok (err e) r' h = absurd (ground arith)

pub unless-ok : (b : Bool) (e : String) → unless b e ≡ ok tt → b ≡ false
unless-ok b e h = ground arith

unchecked : (env : ClientEnv) (options : Options) → check_policy env options none ≡ ok tt
unfolding check_policy
unchecked env options = refl

verify_bundle-IsVouched :
    (env : ClientEnv) (options : Options) (key : Bytes) (b : SignedCapabilityPolicyBundle)
    → parse_public_key env options.public_key ≡ ok key
    → check_policy env options (some b) ≡ ok tt
    → IsVouched env options key b
unfolding check_policy verify_capability_policy_bundle
verify_bundle-IsVouched env options key b parsed h =
    let (u, checked, of_app) =
      >>-ok (verify_capability_policy_bundle env options.public_key b) _ h in
    let (k, parsed', h1) = >>=-ok (parse_public_key env options.public_key) _ checked in
    let (u1, visible, h2) = >>-ok (unless (is_empty (trim_space b.signature)) _) _ h1 in
    let (payload, encoded, h3) = >>=-ok (env.crypto.marshal_bundle b.bundle) _ h2 in
    let (signature, decoded, verified) = >>=-ok (env.crypto.decode b.signature) _ h3 in
    record {
      visible = λ e. ground (arith, visible, eq_iff (trim_space b.signature) "");
      payload = payload;
      encoded = encoded;
      signature = signature;
      decoded = decoded;
      verified = ground (arith, verified, parsed, parsed');
      for_app = ground (arith, of_app, eq_iff b.bundle.app_id options.app_id);
    }

IsVouched-check_policy :
    (env : ClientEnv) (options : Options) (key : Bytes) (b : SignedCapabilityPolicyBundle)
    → parse_public_key env options.public_key ≡ ok key
    → IsVouched env options key b
    → check_policy env options (some b) ≡ ok tt
unfolding check_policy verify_capability_policy_bundle
IsVouched-check_policy env options key b parsed h = ground (
  arith,
  parsed,
  h.encoded,
  h.decoded,
  h.verified,
  h.visible,
  eq_iff (trim_space b.signature) "",
  (eq_iff b.bundle.app_id options.app_id).1 h.for_app,
)

-- The check of the cached policies accepts exactly those that were signed with the key for the app.
pub check_policy-IsVouched :
    (env : ClientEnv) (options : Options) (key : Bytes)
    (policy : Option SignedCapabilityPolicyBundle)
    → parse_public_key env options.public_key ≡ ok key
    → (check_policy env options policy ≡ ok tt)
      ↔ ((b : SignedCapabilityPolicyBundle) → policy ≡ some b → IsVouched env options key b)
check_policy-IsVouched env options key policy parsed = (only_if policy, if_so policy)
  where
    only_if :
        (policy : Option SignedCapabilityPolicyBundle)
        → check_policy env options policy ≡ ok tt
        → (b : SignedCapabilityPolicyBundle) → policy ≡ some b
        → IsVouched env options key b
    only_if policy h b e =
        verify_bundle-IsVouched env options key b parsed
          (subst (λ o. check_policy env options o ≡ ok tt) e h)

    if_so :
        (policy : Option SignedCapabilityPolicyBundle)
        → ((b : SignedCapabilityPolicyBundle) → policy ≡ some b → IsVouched env options key b)
        → check_policy env options policy ≡ ok tt
    if_so none h = unchecked env options
    if_so (some b) h = IsVouched-check_policy env options key b parsed (h b refl)
