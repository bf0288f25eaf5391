-- ===== src/Verification/Monad.antt =====
-- The handlers of internal/licensecore/server.go as steps on the server: a handler stops with a reply, or goes on.
use license_guard.Base.{arith, ℕ, String, [], Bool, false, none, ◌≡◌, refl}
use license_guard.Types.{RiskResult, VerifyResponse}
use license_guard.Server.{Server}

-- What is written to the client: writeError, or writeJSON of a VerifyResponse.
pub data Reply : Type 0 where
  failure : ℕ → String → String → Reply
  verify : VerifyResponse → Reply

-- writeDenied
unfoldable pub write_denied : String → String → RiskResult → Reply
write_denied code message risk = verify (record {
  allowed = false;
  code = code;
  message = message;
  license_token = "";
  expires_at = none;
  offline_grace_until = none;
  entitlements = [];
  capability_policy = none;
  device_status = "";
  risk = risk;
  update = none;
})

pub data Step {ℓ} (A : Type ℓ) : Type ℓ where
  stop : Server → Reply → Step A
  go : Server → A → Step A

abbrev pub M {ℓ} : Type ℓ → Type ℓ
M A = Server → Step A

infixl 5 ◌>>=◌ ◌>>◌
abbrev pub ◌>>=◌ {ℓ κ} : {A : Type ℓ} {B : Type κ} → M A → (A → M B) → M B
◌>>=◌ m f s = elim (m s) [ stop s' r ↦ stop s' r | go s' a ↦ f a s' ]

abbrev pub ◌>>◌ {κ} : {B : Type κ} → M (Unit {0}) → M B → M B
◌>>◌ m k s = elim (m s) [ stop s' r ↦ stop s' r | go s' a ↦ k s' ]

pub >>=-eq-go {ℓ κ} :
    {A : Type ℓ} {B : Type κ} (m : Step A) (f : A → M B) {s' : Server} {b : B}
    → (elim m [ stop t r ↦ stop t r | go t a ↦ f a t ]) ≡ go s' b
    → (t : Server) × (a : A) × (m ≡ go t a) × (f a t ≡ go s' b)
>>=-eq-go (stop t r) f h = absurd (ground arith)
>>=-eq-go (go t a) f h = (t, a, refl, h)

pub >>-eq-go {κ} :
    {B : Type κ} (m : Step (Unit {0})) (k : M B) {s' : Server} {b : B}
    → (elim m [ stop t r ↦ stop t r | go t a ↦ k t ]) ≡ go s' b
    → (t : Server) × (m ≡ go t tt) × (k t ≡ go s' b)
>>-eq-go (stop t r) k h = absurd (ground arith)
>>-eq-go (go t tt) k h = (t, refl, h)

-- The reply lets the client run.
abbrev pub allows : Reply → Bool
allows (failure status code message) = false
allows (verify v) = v.allowed
