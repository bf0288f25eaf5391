-- ===== src/Tests/Codec.antt =====
-- A codec that keeps what internal/licensecore/token.go relies on, for the
-- examples: a byte is written in unary, and one token payload is known.
use Prim.Native.Char.{char, code}
use license_guard.Base.{
  ℕ, zero, suc, ◌+◌, ℤ, pos, leb_ℤ, eqb, String, List, [], ◌∷◌, Bool, true, false, ◌&&◌, ◌==◌,
  eq_iff, ok, err, if◌then◌else◌, ◌≡◌, refl, arith, ap, sym, ◌∙◌, Lacks, Bool-cases, inl, inr,
}
use license_guard.Types.{LicenseTokenClaims}
use license_guard.Token.{Bytes, Crypto}
use license_guard.Token.RoundTrip.{IsLawful}

abbrev unary : ℕ → String → String
unary zero rest = String.◌∷◌ (char 48 tt) rest
unary (suc n) rest = String.◌∷◌ (char 49 tt) (unary n rest)

abbrev encode_bytes : Bytes → String
encode_bytes [] = ""
encode_bytes (n ∷ ns) = unary n (encode_bytes ns)

abbrev decode_from : ℕ → String → Bytes
decode_from n String.[] = []
decode_from n (String.◌∷◌ c s) =
    let more = decode_from (suc n) s in
    let next = decode_from 0 s in if eqb (code c) 49 then more else n ∷ next

decode-unary :
    (k n : ℕ) (rest : String) → decode_from k (unary n rest) ≡ (k + n) ∷ decode_from 0 rest
decode-unary k zero rest = ap (λ x. x ∷ decode_from 0 rest) (omega arith)
decode-unary k (suc n) rest =
    decode-unary (suc k) n rest ∙ ap (λ x. x ∷ decode_from 0 rest) (omega arith)

decode-encode : (b : Bytes) → decode_from 0 (encode_bytes b) ≡ b
decode-encode [] = refl
decode-encode (n ∷ ns) =
    decode-unary 0 n (encode_bytes ns)
    ∙ ap (λ x. (0 + n) ∷ x) (decode-encode ns)
    ∙ ap (λ x. x ∷ ns) (omega arith)

unary-Lacks : (n : ℕ) (rest : String) → Lacks b'.' rest → Lacks b'.' (unary n rest)
unary-Lacks zero rest h = (refl, h)
unary-Lacks (suc n) rest h = (refl, unary-Lacks n rest h)

encode-Lacks : (b : Bytes) → Lacks b'.' (encode_bytes b)
encode-Lacks [] = tt
encode-Lacks (n ∷ ns) = unary-Lacks n (encode_bytes ns) (encode-Lacks ns)

-- A token payload.
abbrev pub example_claims : LicenseTokenClaims
example_claims = record {
  iss = "license-guard";
  app_id = "visionflow";
  license_id = "lic_1";
  device_id = "dev_1";
  entitlements = [];
  issued_at = pos 100;
  expires_at = pos 200;
  offline_grace_until = pos 300;
}

abbrev same_integer : ℤ → ℤ → Bool
same_integer x y = leb_ℤ x y && leb_ℤ y x

abbrev same_texts : List String → List String → Bool
same_texts [] [] = true
same_texts (x ∷ xs) (y ∷ ys) = let rest = same_texts xs ys in if x == y then rest else false
same_texts xs ys = false

same_texts-eq : (xs ys : List String) → same_texts xs ys ≡ true → xs ≡ ys
same_texts-eq [] [] h = refl
same_texts-eq [] (y ∷ ys) h = absurd (ground arith)
same_texts-eq (x ∷ xs) [] h = absurd (ground arith)
same_texts-eq (x ∷ xs) (y ∷ ys) h = elim (Bool-cases (x == y)) [
  | inr e ↦ absurd (ground (arith, rw e at h))
  | inl e ↦
      ap (λ z. z ∷ xs) ((eq_iff x y).0 e) ∙ ap (λ zs. y ∷ zs) (same_texts-eq xs ys (rw e at h))
]

abbrev same_claims : LicenseTokenClaims → LicenseTokenClaims → Bool
same_claims a c =
    (c.iss == a.iss)
    && (c.app_id == a.app_id)
    && (c.license_id == a.license_id)
    && (c.device_id == a.device_id)
    && same_texts c.entitlements a.entitlements
    && same_integer c.issued_at a.issued_at
    && same_integer c.expires_at a.expires_at
    && same_integer c.offline_grace_until a.offline_grace_until

same_claims-eq : (a c : LicenseTokenClaims) → same_claims a c ≡ true → c ≡ a
same_claims-eq a c h = ground (
  arith,
  eq_iff c.iss a.iss,
  eq_iff c.app_id a.app_id,
  eq_iff c.license_id a.license_id,
  eq_iff c.device_id a.device_id,
  same_texts-eq c.entitlements a.entitlements,
)

-- The codec that writes one payload.
abbrev pub codec_for : LicenseTokenClaims → Crypto
codec_for a = record {
  sign = λ key message. key;
  verify = λ key message signature. true;
  encode = encode_bytes;
  decode = λ t. ok (decode_from 0 t);
  marshal_header = ok (7 ∷ []);
  marshal_claims = λ c. if same_claims a c then ok (3 ∷ 1 ∷ []) else err "not the payload";
  unmarshal_claims = λ b. ok a;
  marshal_bundle = λ b. ok [];
}

pub codec_for-IsLawful :
    (a : LicenseTokenClaims) (public_key private_key : Bytes)
    → IsLawful (codec_for a) public_key private_key
codec_for-IsLawful a public_key private_key = record {
  verify-sign = λ m. refl;
  decode-encode = λ b. ap ok (decode-encode b);
  encode-Lacks = encode-Lacks;
  unmarshal-marshal = λ c b h. elim (Bool-cases (same_claims a c)) [
    | inl e ↦ ap ok (sym (same_claims-eq a c e))
    | inr e ↦ absurd (ground (arith, e))
  ];
}

abbrev pub codec : Crypto
codec = codec_for example_claims

pub codec-IsLawful : IsLawful codec (1 ∷ []) (2 ∷ [])
codec-IsLawful = codec_for-IsLawful example_claims (1 ∷ []) (2 ∷ [])
