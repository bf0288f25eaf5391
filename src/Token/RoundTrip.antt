-- ===== src/Token/RoundTrip.antt =====
-- Signing and checking of license tokens (internal/licensecore/token.go) against each other.
use Prim.Native.Char.{char}
use Prim.Native.String
use text.Mathlib.TextLemmas.{
  cons-append, nil-append, append_assoc as text-append_assoc, append-nil as text-append-nil,
}
use license_guard.Base.{
  List, ◌≡◌, String, Bool, true, ok, arith, refl, ◌∙◌, Lacks, split_on, split_on-append,
  split_on-Lacks, concat, ◌∷◌, [], if◌then◌else◌, not, ◌&&◌, ltb_ℤ, ap, Result-cases, utf8, inl,
  inr,
}
use license_guard.Types.{LicenseTokenClaims, Time, unix}
use license_guard.Token.{
  Bytes, Crypto, valid, expired, sign_license_token, verify_license_token, check_parts,
  check_signature, check_payload, check_claims,
}

-- What the server relies on: a key pair signs what it verifies, base64 and JSON can be read back,
-- and the base64 alphabet has no full stop.
pub record IsLawful (c : Crypto) (public_key private_key : Bytes) : Type 0 where
  pub verify-sign : (m : Bytes) → c.verify public_key m (c.sign private_key m) ≡ true
  pub decode-encode : (b : Bytes) → c.decode (c.encode b) ≡ ok b
  pub encode-Lacks : (b : Bytes) → Lacks b'.' (c.encode b)
  pub unmarshal-marshal :
      (claims : LicenseTokenClaims) (b : Bytes)
      → c.marshal_claims claims ≡ ok b
      → c.unmarshal_claims b ≡ ok claims

dot-append : (t : String) → String.◌++◌ "." t ≡ String.◌∷◌ (char 46 tt) t
dot-append t = cons-append (char 46 tt) "" t ∙ ap (String.◌∷◌ (char 46 tt)) (nil-append t)

-- Three parts without a full stop are the parts of the text that joins them.
split_on-three :
    (a b d : String)
    → Lacks b'.' a
    → Lacks b'.' b
    → Lacks b'.' d
    → split_on b'.' (concat (concat (a ∷ "." ∷ b ∷ []) ∷ "." ∷ d ∷ [])) ≡ a ∷ b ∷ d ∷ []
unfolding concat
split_on-three a b d ha hb hd =
    simp (text-append_assoc, text-append-nil, dot-append, cons-append)
      (rw (split_on-append b'.' a _ (char 46 tt) ha refl)
        (rw (split_on-append b'.' b _ (char 46 tt) hb refl) (rw (split_on-Lacks b'.' d hd))))

-- Where Ed25519, base64 and JSON are lawful for a key pair, a token that the server signed with it is
-- read back with its claims: as valid if it has not expired, or if expired tokens are allowed;
-- otherwise as expired.
pub verify-sign_license_token :
    (c : Crypto) (public_key private_key : Bytes) (claims : LicenseTokenClaims) (token : String)
    (now : Time) (allow_expired : Bool)
    → IsLawful c public_key private_key
    → sign_license_token c private_key claims ≡ ok token
    → verify_license_token c public_key now token allow_expired ≡ (
        if not allow_expired && ltb_ℤ claims.expires_at (unix now)
        then expired claims
        else valid claims)
unfolding verify_license_token sign_license_token
verify-sign_license_token c public_key private_key claims token now allow_expired law signed =
    elim (Result-cases c.marshal_header) [
      | inr (e, bad) ↦ cc
      | inl (header, he) ↦ elim (Result-cases (c.marshal_claims claims)) [
        | inr (e, bad) ↦ ground arith
        | inl (payload, pe) ↦ read header payload (ground arith) pe
      ]
    ]
  where
    read :
        (header payload : Bytes)
        → (let input = concat (c.encode header ∷ "." ∷ c.encode payload ∷ []) in
            concat (input ∷ "." ∷ c.encode (c.sign private_key (utf8 input)) ∷ []))
          ≡ token
        → c.marshal_claims claims ≡ ok payload
        → check_parts c public_key now allow_expired (split_on b'.' token) ≡ (
            if not allow_expired && ltb_ℤ claims.expires_at (unix now)
            then expired claims
            else valid claims)
    read header payload e pe = rw (← e) (
        rw
          (split_on-three (c.encode header) (c.encode payload)
            (c.encode
              (c.sign private_key (utf8 (concat (c.encode header ∷ "." ∷ c.encode payload ∷ [])))))
            (law.encode-Lacks _) (law.encode-Lacks _) (law.encode-Lacks _))
          (rw
            (law.decode-encode
              (c.sign private_key (utf8 (concat (c.encode header ∷ "." ∷ c.encode payload ∷ [])))))
            (rw (law.verify-sign (utf8 (concat (c.encode header ∷ "." ∷ c.encode payload ∷ []))))
              (rw (law.decode-encode payload) (rw (law.unmarshal-marshal claims payload pe))))))

-- A token that is valid in two checks has the same claims in both.
same_claims :
    (c : Crypto) (public_key : Bytes) (now later : Time) (allow allow' : Bool) (parts : List String)
    {x y : LicenseTokenClaims}
    → check_parts c public_key now allow parts ≡ valid x
    → check_parts c public_key later allow' parts ≡ valid y
    → x ≡ y
unfolding check_parts check_signature check_payload check_claims
same_claims c public_key now later allow allow' [] h k = absurd (ground arith)
same_claims c public_key now later allow allow' (a ∷ []) h k = absurd (ground arith)
same_claims c public_key now later allow allow' (a ∷ b ∷ []) h k = absurd (ground arith)
same_claims c public_key now later allow allow' (a ∷ b ∷ d ∷ []) h k = ground arith
same_claims c public_key now later allow allow' (a ∷ b ∷ d ∷ e ∷ rest) h k = absurd (ground arith)

pub verify_license_token-valid :
    (c : Crypto) (public_key : Bytes) (now later : Time) (allow allow' : Bool) (token : String)
    {x y : LicenseTokenClaims}
    → verify_license_token c public_key now token allow ≡ valid x
    → verify_license_token c public_key later token allow' ≡ valid y
    → x ≡ y
unfolding verify_license_token
verify_license_token-valid c public_key now later allow allow' token h k =
    same_claims c public_key now later allow allow' (split_on b'.' token) h k
