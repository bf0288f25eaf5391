-- ===== src/Verification/Outcome.antt =====
-- What a client that is let run leaves on the server (internal/licensecore/server.go, processClientVerification):
-- an active activation of the license on its device, a signed token, and a save.
use license_guard.Base.{
  String, List, [], ◌∷◌, ◌++◌, Bool, false, none, some, ◌≡◌, ◌≢◌, refl, arith, ◌||◌, Option-cases,
  inl, inr, sym, ◌∙◌, ap, eq_iff, subst, find_first, find_first-update_first, find_first-append,
  find_first-holds, eq_refl, Result, ok, err,
}
use license_guard.Types.{Device, Activation, LicenseTokenClaims, RiskResult, RiskEvent}
use license_guard.Server.{Server, Env, save_locked, add_events}
use license_guard.Server.Find.{
  find_device_by_fingerprint_locked, has_fingerprint, find_activation_locked, is_activation,
}
use license_guard.Integrity.{Evaluation, exact_release, evaluate_integrity_locked}
use license_guard.Integrity.Deny.{admits, contradicts_release, evaluate_integrity_locked-deny}
use license_guard.Integrity.Verdict.{evaluate_integrity_locked-events}
use license_guard.Verification.Monad.{go, >>=-eq-go, >>-eq-go}
use license_guard.Verification.Licensing.{ClientVerificationInput, Subject, deny, save_and_deny}
use license_guard.Verification.Admission.{
  find_or_create_device_locked, update_device, add_device, check_device, check_token_device,
  check_token_activation, activate, activate_new, add_activation, update_activation,
  renew_activation, new_activation, new_device, fingerprint_hash,
}
use license_guard.Verification.Grant.{assess, or_fail, save_or_fail, add_report, client}
use license_guard.Verification.Soundness.{Kept}
use license_guard.Verification.{admit}

-- The license has an active activation on the device.
abbrev pub IsActivated : Server → String → String → Type 0
IsActivated s license_id device_id =
    (a : Activation) × (find_activation_locked s license_id device_id ≡ some a)
    × (a.activation_status ≡ "active")

or_false : (a b : Bool) → (a || b) ≡ false → b ≡ false
or_false a b h = ground arith

pub Kept-trans : (s t u : Server) → Kept s t → Kept t u → Kept s u
Kept-trans s t u h k = (k.0 ∙ h.0, k.1 ∙ h.1)

module _ (env : Env) (key : String) where
  find_device-go :
      (input : ClientVerificationInput) (s : Server) {t : Server} {d : Device}
      → find_or_create_device_locked env input s ≡ go t d
      → Kept s t
  unfolding find_or_create_device_locked update_device add_device
  find_device-go input s h = (ground arith, ground arith)

  find_device-fingerprint :
      (input : ClientVerificationInput) (s : Server) {t : Server} {d : Device}
      → find_or_create_device_locked env input s ≡ go t d
      → d.device_fingerprint_hash ≡ fingerprint_hash env input
  unfolding find_or_create_device_locked new_device find_device_by_fingerprint_locked
  find_device-fingerprint input s h =
      elim (Option-cases
        (find_first (has_fingerprint (fingerprint_hash env input)) s.contents.devices)) [
          | inl e ↦ ground (arith, e)
          | inr (d, e) ↦ ground (
            arith,
            e,
            (eq_iff d.device_fingerprint_hash (fingerprint_hash env input)).0 (
                find_first-holds (has_fingerprint (fingerprint_hash env input)) s.contents.devices
                  e),
          )
        ]

  pub check_device-go :
      (subject : Subject) (d : Device) (s : Server) {t : Server} {u : Unit {0}}
      → check_device env key subject d s ≡ go t u
      → (d.status ≢ "blocked") × (t ≡ s)
  unfolding check_device deny save_and_deny
  check_device-go subject d s h =
      ((λ e. ground (arith, e, eq_iff d.status "blocked")), ground arith)

  pub check_token_device-go :
      (subject : Subject) (d : Device) (s : Server) {t : Server} {u : Unit {0}}
      → check_token_device env key subject d s ≡ go t u
      → ((c : LicenseTokenClaims) → subject.claims ≡ some c → c.device_id ≡ d.id) × (t ≡ s)
  unfolding check_token_device deny save_and_deny
  check_token_device-go subject d s h =
      ((λ c e. ground (arith, e, eq_iff c.device_id d.id)), ground arith)

  pub check_token_activation-go :
      (subject : Subject) (d : Device) (s : Server) {t : Server} {u : Unit {0}}
      → check_token_activation env key subject d s ≡ go t u
      → t ≡ s
  unfolding check_token_activation deny save_and_deny
  check_token_activation-go subject d s h = ground arith

  activate_new-go :
      (subject : Subject) (d : Device) (s : Server) {t : Server} {u : Unit {0}}
      → find_activation_locked s subject.license.id d.id ≡ none
      → activate_new env key subject d s ≡ go t u
      → IsActivated t subject.license.id d.id × Kept s t
  unfolding activate_new deny save_and_deny add_activation find_activation_locked find_first
      new_activation
  activate_new-go subject d s {t} e h = (
    (
      new_activation env subject d,
      ap (λ found. find_first (is_activation subject.license.id d.id) found) added
          ∙ find_first-append (is_activation subject.license.id d.id) s.contents.activations
              (new_activation env subject d ∷ []) e
          ∙ ground (arith, eq_refl subject.license.id, eq_refl d.id),
      refl,
    ),
    (ground arith, ground arith),
  )
    where
      added : t.contents.activations ≡ s.contents.activations ++ new_activation env subject d ∷ []
      added = ground arith

  renewed :
      (license_id device_id : String) (s : Server) (a : Activation)
      → find_activation_locked s license_id device_id ≡ some a
      → IsActivated
          (update_activation license_id device_id (renew_activation env) s)
          license_id
          device_id
  unfolding update_activation find_activation_locked
  renewed license_id device_id s a e =
      let is_ours = is_activation license_id device_id in
      (
        renew_activation env a,
        find_first-update_first is_ours (renew_activation env) s.contents.activations e
            (find_first-holds is_ours s.contents.activations e),
        refl,
      )

  update_activation-Kept :
      (license_id device_id : String) (f : Activation → Activation) (s : Server)
      → Kept s (update_activation license_id device_id f s)
  unfolding update_activation
  update_activation-Kept license_id device_id f s = (refl, refl)

  activate-go :
      (subject : Subject) (d : Device) (s : Server) {t : Server} {u : Unit {0}}
      → activate env key subject d s ≡ go t u
      → IsActivated t subject.license.id d.id × Kept s t
  unfolding activate
  activate-go subject d s {t} h =
      elim (Option-cases (find_activation_locked s subject.license.id d.id)) [
        | inl e ↦ activate_new-go subject d s e (rw (e, activate) at h)
        | inr (a, e) ↦
            let written : update_activation subject.license.id d.id (renew_activation env) s ≡ t =
              ground (arith, e) in
            (
              subst (λ x. IsActivated x subject.license.id d.id) written
                  (renewed subject.license.id d.id s a e),
              subst (λ x. Kept s x) written
                  (update_activation-Kept subject.license.id d.id (renew_activation env) s),
            )
      ]

  -- What admitting a device has checked, and what it leaves.
  abbrev pub Admitted : ClientVerificationInput → Subject → Device → Server → Server → Type 0
  Admitted input subject d s t =
      (d.device_fingerprint_hash ≡ fingerprint_hash env input)
      × (d.status ≢ "blocked")
      × ((c : LicenseTokenClaims) → subject.claims ≡ some c → c.device_id ≡ d.id)
      × IsActivated t subject.license.id d.id
      × Kept s t

  steps-Admitted :
      (input : ClientVerificationInput) (subject : Subject) (s : Server)
      {t1 t2 t3 t4 t5 t6 : Server} {d d' : Device}
      → find_or_create_device_locked env input s ≡ go t1 d
      → check_device env key subject d t1 ≡ go t2 tt
      → check_token_device env key subject d t2 ≡ go t3 tt
      → check_token_activation env key subject d t3 ≡ go t4 tt
      → activate env key subject d t4 ≡ go t5 tt
      → go t5 d ≡ go t6 d'
      → Admitted input subject d' s t6
  steps-Admitted input subject s {t1} {t2} {t3} {t4} {t5} {t6} {d} {d'} h1 h2 h3 h4 h5 h6 =
      let (saves1, keys1) = find_device-go input s h1 in
      let (active, e2) = check_device-go subject d t1 h2 in
      let (token, e3) = check_token_device-go subject d t2 h3 in
      let e4 = check_token_activation-go subject d t3 h4 in
      let (activated, (saves, keys)) = activate-go subject d t4 h5 in
      let same_server : t5 ≡ t6 = ground arith in
      let same_device : d ≡ d' = ground arith in
      subst (λ x. Admitted input subject d' s x) same_server
        (subst (λ x. Admitted input subject x s t5) same_device
          (find_device-fingerprint input s h1, active, token, activated, (cc, cc)))

  pub admit-Admitted :
      (input : ClientVerificationInput) (subject : Subject) (s : Server) {t : Server} {d : Device}
      → admit env key input subject s ≡ go t d
      → Admitted input subject d s t
  unfolding admit
  admit-Admitted input subject s h =
      let (t1, d, h1, r1) = >>=-eq-go (find_or_create_device_locked env input s) _ h in
      let (t2, h2, r2) = >>-eq-go (check_device env key subject d t1) _ r1 in
      let (t3, h3, r3) = >>-eq-go (check_token_device env key subject d t2) _ r2 in
      let (t4, h4, r4) = >>-eq-go (check_token_activation env key subject d t3) _ r3 in
      let (t5, h5, r5) = >>-eq-go (activate env key subject d t4) _ r4 in
      steps-Admitted input subject s h1 h2 h3 h4 h5 r5

  -- The server after an assessment that does not deny.
  abbrev pub assessed : ClientVerificationInput → Subject → Device → Evaluation → Server
  assessed input subject d v = add_report env input subject d v (
      update_device env input
        (λ d. record d { risk_score = v.risk.score; last_seen_at = env.time 1648 }) v.server)

  assessed-same :
      (input : ClientVerificationInput) (subject : Subject) (d : Device) (v : Evaluation)
      → ((assessed input subject d v).contents.activations ≡ v.server.contents.activations)
        × Kept v.server (assessed input subject d v)
  unfolding add_report update_device
  assessed-same input subject d v = (refl, (refl, refl))

  events-same :
      (s : Server) (events : List RiskEvent)
      → ((add_events events s).contents.activations ≡ s.contents.activations)
        × Kept s (add_events events s)
  unfolding add_events
  events-same s events = (refl, (refl, refl))

  pub assess-eq :
      (input : ClientVerificationInput) (subject : Subject) (d : Device) (s : Server) {t : Server}
      {risk : RiskResult}
      → assess env key input subject d s ≡ go t risk
      → let v = evaluate_integrity_locked env s (client input subject d) in
        (v.deny ≡ false) × (t ≡ assessed input subject d v)
  unfolding assess save_and_deny deny
  assess-eq input subject d s h = ground arith

  pub assess-go :
      (input : ClientVerificationInput) (subject : Subject) (d : Device) (s : Server) {t : Server}
      {risk : RiskResult}
      → assess env key input subject d s ≡ go t risk
      → (admits input.integrity ≡ false)
        × (t.contents.activations ≡ s.contents.activations)
        × Kept s t
  assess-go input subject d s h =
      let c = client input subject d in
      let (allowed, e) = assess-eq input subject d s h in
      let (activations, kept) = assessed-same input subject d (evaluate_integrity_locked env s c) in
      let same = evaluate_integrity_locked-events env s c in
      (
        or_false (contradicts_release c.integrity (exact_release s c)) (admits c.integrity)
            (sym (evaluate_integrity_locked-deny env s c) ∙ allowed),
        ap (λ x. x.contents.activations) e
            ∙ activations
            ∙ ap (λ x. x.contents.activations) same
            ∙ (events-same s _).0,
        subst (λ x. Kept s x) (sym e)
            (Kept-trans s (evaluate_integrity_locked env s c).server
              (assessed input subject d (evaluate_integrity_locked env s c))
              (subst (λ x. Kept s x) (sym same) (events-same s _).1) kept),
      )

  pub or_fail-go {ℓ} :
      {A : Type ℓ} (code : String) (m : Result A) (s : Server) {t : Server} {a : A}
      → or_fail code m s ≡ go t a
      → (m ≡ ok a) × (t ≡ s)
  unfolding or_fail
  or_fail-go code (ok a) s h = ground arith
  or_fail-go code (err e) s h = absurd (ground arith)

  pub save_or_fail-go :
      (s : Server) {t : Server} {u : Unit {0}}
      → save_or_fail env s ≡ go t u
      → (env.save s.saves s.contents ≡ none)
        × (t.contents ≡ s.contents)
        × (t.saves ≡ s.saves ++ s.contents ∷ [])
  unfolding save_or_fail save_locked
  save_or_fail-go s h = ground arith
