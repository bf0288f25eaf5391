-- ===== src/Verification/Soundness.antt =====
-- What processClientVerification (internal/licensecore/server.go) has checked about the license when it lets a client run.
use license_guard.Base.{
  String, Bool, true, false, Option, none, some, ◌≡◌, refl, arith, Bool-cases, inl, inr, sym, ◌∙◌,
  ap, eq_iff, is_empty, subst,
}
use license_guard.Types.{App, License, LicenseTokenClaims, after}
use license_guard.Token.{TokenResult, valid, expired, invalid, verify_license_token}
use license_guard.Server.{Server, Env, hash_string}
use license_guard.Server.Find.{
  find_app_locked, find_license_by_key_locked, find_license_by_id_locked, has_key_hash,
  has_license_id,
}
use license_guard.RateLimit.{is_rate_limited_locked}
use license_guard.Challenge.{validate_challenge_locked}
use license_guard.Challenge.SingleUse.{Answers, validate-Answers}
use license_guard.Verification.Monad.{go, >>=-eq-go, >>-eq-go}
use license_guard.Verification.Licensing.{
  ClientVerificationInput, Subject, deny, save_and_deny, require_license, license_of_token,
  check_rate_limit, check_challenge, require_app, find_subject, check_license, check_token_app,
}
use license_guard.Verification.{identify}

-- The request names the license by its key, or by a token that the server signed.
pub data Names (env : Env) (s : Server) (input : ClientVerificationInput) : Subject → Type 0 where
  by_key :
      {subject : Subject}
      → is_empty input.license_key ≡ false
      → find_license_by_key_locked env s input.license_key ≡ some subject.license
      → subject.claims ≡ none
      → Names env s input subject
  by_token :
      {subject : Subject} (c : LicenseTokenClaims)
      → verify_license_token env.crypto s.public_key (env.time 1569) input.license_token true
        ≡ valid c
      → find_license_by_id_locked s c.license_id ≡ some subject.license
      → subject.claims ≡ some c
      → Names env s input subject

-- All that the server has checked about the app and the license.
pub record IsLicensed (env : Env) (s : Server) (key : String) (input : ClientVerificationInput)
    (subject : Subject) : Type 0 where
  pub not_limited : is_rate_limited_locked s key (env.time 1549) ≡ false
  pub challenge :
      Answers s (env.time 2386) input.app_id input.device.install_id input.challenge_id input.nonce
  pub app : find_app_locked s input.app_id ≡ some subject.app
  pub app_active : subject.app.status ≡ "active"
  pub names : Names env s input subject
  pub license_app : subject.license.app_id ≡ subject.app.app_key
  pub license_active : subject.license.status ≡ "active"
  pub in_force : after (env.time 1589) subject.license.expires_at ≡ false
  pub token_app :
      (c : LicenseTokenClaims) → subject.claims ≡ some c → c.app_id ≡ subject.app.app_key

-- What only the end of a request changes: the history of saves, and the keys, which nothing changes.
abbrev pub Kept : Server → Server → Type 0
Kept s t = (t.saves ≡ s.saves) × (t.private_key ≡ s.private_key)

go-subject : {s t : Server} {a b : Subject} → go s a ≡ go t b → a ≡ b
go-subject h = ground arith

go-server : {s t : Server} {a b : Subject} → go s a ≡ go t b → s ≡ t
go-server h = ground arith

module _ (env : Env) (key : String) where
  check_rate_limit-go :
      (s : Server) {t : Server} {u : Unit {0}}
      → check_rate_limit env key s ≡ go t u
      → (is_rate_limited_locked s key (env.time 1549) ≡ false) × (t ≡ s)
  unfolding check_rate_limit
  check_rate_limit-go s h = ground arith

  check_challenge-go :
      (input : ClientVerificationInput) (s : Server) {t : Server} {u : Unit {0}}
      → check_challenge env key input s ≡ go t u
      → ((validate_challenge_locked s
            (env.time 2386)
            input.app_id
            input.device.install_id
            input.challenge_id
            input.nonce).1
          ≡ none)
        × (t.contents ≡ s.contents)
        × (t.public_key ≡ s.public_key)
        × Kept s t
  unfolding check_challenge deny validate_challenge_locked
  check_challenge-go input s h = ground arith

  require_app-go :
      (input : ClientVerificationInput) (s : Server) {t : Server} {app : App}
      → require_app env key input s ≡ go t app
      → (find_app_locked s input.app_id ≡ some app) × (app.status ≡ "active") × (t ≡ s)
  unfolding require_app deny
  require_app-go input s {t} {app} h = ground (arith, eq_iff app.status "active")

  require_license-go :
      (app : App) (p : License → Bool) (claims : Option LicenseTokenClaims) (lic : Option License)
      (s : Server) {t : Server} {subject : Subject}
      → require_license env key app p claims lic s ≡ go t subject
      → (lic ≡ some subject.license)
        × (subject.license.app_id ≡ subject.app.app_key)
        × (subject.app ≡ app)
        × (subject.claims ≡ claims)
        × (t ≡ s)
  unfolding require_license deny
  require_license-go app p claims none s h = absurd (ground arith)
  require_license-go app p claims (some lic) s h = ground (arith, eq_iff lic.app_id app.app_key)

  abbrev Found : ClientVerificationInput → App → Server → Server → Subject → Type 0
  Found input app s t subject =
      Names env s input subject
      × (subject.license.app_id ≡ subject.app.app_key)
      × (subject.app ≡ app)
      × (t ≡ s)

  license_of_token-go :
      (input : ClientVerificationInput) (app : App) (token : TokenResult) (s : Server) {t : Server}
      {subject : Subject}
      → verify_license_token env.crypto s.public_key (env.time 1569) input.license_token true
        ≡ token
      → license_of_token env key app token s ≡ go t subject
      → Found input app s t subject
  unfolding license_of_token deny
  license_of_token-go input app (valid c) s e h =
      let (found, of_app, same, claims, rest) =
        require_license-go app (has_license_id c.license_id) (some c)
          (find_license_by_id_locked s c.license_id) s h in
      (by_token c e found claims, of_app, same, rest)
  license_of_token-go input app (expired c) s e h = absurd (ground arith)
  license_of_token-go input app (invalid m) s e h = absurd (ground arith)

  find_subject-go :
      (input : ClientVerificationInput) (app : App) (s : Server) {t : Server} {subject : Subject}
      → find_subject env key input app s ≡ go t subject
      → Found input app s t subject
  unfolding find_subject deny
  find_subject-go input app s h = elim (Bool-cases (is_empty input.license_key)) [
    | inr e ↦
        let (found, of_app, same, claims, rest) =
          require_license-go app (has_key_hash (hash_string env input.license_key)) none
            (find_license_by_key_locked env s input.license_key) s (rw e at h) in
        (by_key e found claims, of_app, same, rest)
    | inl e ↦ elim (Bool-cases (is_empty input.license_token)) [
      | inr f ↦
          license_of_token-go input app
            (verify_license_token env.crypto s.public_key (env.time 1569) input.license_token true)
            s refl (rw (e, f) at h)
      | inl f ↦ absurd (ground (arith, e, f))
    ]
  ]

  check_license-go :
      (subject : Subject) (s : Server) {t : Server} {u : Unit {0}}
      → check_license env key subject s ≡ go t u
      → (subject.license.status ≡ "active")
        × (after (env.time 1589) subject.license.expires_at ≡ false)
        × (t ≡ s)
  unfolding check_license deny save_and_deny
  check_license-go subject s h = ground (arith, eq_iff subject.license.status "active")

  check_token_app-go :
      (subject : Subject) (s : Server) {t : Server} {u : Unit {0}}
      → check_token_app env key subject s ≡ go t u
      → ((c : LicenseTokenClaims) → subject.claims ≡ some c → c.app_id ≡ subject.app.app_key)
        × (t ≡ s)
  unfolding check_token_app deny save_and_deny
  check_token_app-go subject s h =
      ((λ c e. ground (arith, e, eq_iff c.app_id subject.app.app_key)), ground arith)

  Names-same :
      (s t : Server) (input : ClientVerificationInput) {subject : Subject}
      → t.contents ≡ s.contents
      → t.public_key ≡ s.public_key
      → Names env t input subject
      → Names env s input subject
  unfolding find_license_by_key_locked find_license_by_id_locked
  Names-same s t input e k (by_key given found none_read) = by_key given (rw e at found) none_read
  Names-same s t input e k (by_token c ok_token found read) =
      by_token c (rw k at ok_token) (rw e at found) read

  find_app-same :
      (s t : Server) (app_id : String)
      → t.contents ≡ s.contents
      → find_app_locked t app_id ≡ find_app_locked s app_id
  unfolding find_app_locked
  find_app-same s t app_id e = rw e

  -- What the six steps have checked, about the server that they started from.
  steps-IsLicensed :
      (input : ClientVerificationInput) {s t1 t2 t3 t4 t5 t6 : Server} {app : App}
      {subject : Subject}
      → check_rate_limit env key s ≡ go t1 tt
      → check_challenge env key input t1 ≡ go t2 tt
      → require_app env key input t2 ≡ go t3 app
      → find_subject env key input app t3 ≡ go t4 subject
      → check_license env key subject t4 ≡ go t5 tt
      → check_token_app env key subject t5 ≡ go t6 tt
      → IsLicensed env s key input subject × (t6.contents ≡ s.contents) × Kept s t6
  steps-IsLicensed input {s} {t1} {t2} {t3} {t4} {t5} {t6} {app} {subject} h1 h2 h3 h4 h5 h6 =
      let (limited, e1) = check_rate_limit-go s h1 in
      let (answer, c2, k2, kept) = check_challenge-go input t1 h2 in
      let (found, active, e3) = require_app-go input t2 h3 in
      let (named, of_app, same, e4) = find_subject-go input app t3 h4 in
      let (in_use, in_force, e5) = check_license-go subject t4 h5 in
      let (token, e6) = check_token_app-go subject t5 h6 in
      let contents : t3.contents ≡ s.contents = cc in
      let public_key : t3.public_key ≡ s.public_key = cc in
      (
        record {
          not_limited = limited;
          challenge =
              (validate-Answers s (env.time 2386) input.app_id input.device.install_id
                  input.challenge_id input.nonce).0
                (rw e1 at answer);
          app = sym (find_app-same s t2 input.app_id cc) ∙ found ∙ ap some (sym same);
          app_active = rw (← same) at active;
          names = Names-same s t3 input contents public_key named;
          license_app = of_app;
          license_active = in_use;
          in_force = in_force;
          token_app = token;
        },
        cc,
        (cc, cc),
      )

  steps_end :
      (input : ClientVerificationInput) {s t6 t : Server} {subject' subject : Subject}
      → IsLicensed env s key input subject' × (t6.contents ≡ s.contents) × Kept s t6
      → go t6 subject' ≡ go t subject
      → IsLicensed env s key input subject × (t.contents ≡ s.contents) × Kept s t
  steps_end input {s} {t6} {t} {subject'} {subject} (licensed, same, kept) e = (
    subst (λ x. IsLicensed env s key input x) (go-subject e) licensed,
    ap (λ x. x.contents) (sym (go-server e)) ∙ same,
    subst (λ x. Kept s x) (go-server e) kept,
  )

  pub identify-IsLicensed :
      (input : ClientVerificationInput) (s : Server) {t : Server} {subject : Subject}
      → identify env key input s ≡ go t subject
      → IsLicensed env s key input subject × (t.contents ≡ s.contents) × Kept s t
  unfolding identify
  identify-IsLicensed input s h =
      let (t1, h1, r1) = >>-eq-go (check_rate_limit env key s) _ h in
      let (t2, h2, r2) = >>-eq-go (check_challenge env key input t1) _ r1 in
      let (t3, app, h3, r3) = >>=-eq-go (require_app env key input t2) _ r2 in
      let (t4, subject', h4, r4) = >>=-eq-go (find_subject env key input app t3) _ r3 in
      let (t5, h5, r5) = >>-eq-go (check_license env key subject' t4) _ r4 in
      let (t6, h6, r6) = >>-eq-go (check_token_app env key subject' t5) _ r5 in
      steps_end input (steps-IsLicensed input h1 h2 h3 h4 h5 h6) r6
