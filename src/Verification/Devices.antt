-- ===== src/Verification/Devices.antt =====
-- The device of a request among the stored ones (internal/licensecore/server.go, findOrCreateDeviceLocked
-- and what processClientVerification does with its result).
use license_guard.Base.{
  Option, false, eq_iff, String, List, [], ◌∷◌, none, some, ◌≡◌, refl, sym, ◌∙◌, ap, subst, arith,
  Option-cases, inl, inr, find_first, find_first-update_first, find_first-append, find_first-holds,
  eq_refl, ◌==◌,
}
use license_guard.Types.{Activation, LicenseTokenClaims, Device, RiskResult, RiskEvent}
use license_guard.Server.{Server, Env, add_events}
use license_guard.Server.Find.{
  find_activation_locked, find_device_by_fingerprint_locked, has_fingerprint,
}
use license_guard.Integrity.{Evaluation, evaluate_integrity_locked}
use license_guard.Integrity.Verdict.{evaluate_integrity_locked-events}
use license_guard.Verification.Monad.{go, >>=-eq-go, >>-eq-go}
use license_guard.Verification.Licensing.{ClientVerificationInput, Subject, deny, save_and_deny}
use license_guard.Verification.Admission.{
  is_inactive, find_or_create_device_locked, update_device, add_device, refresh_device,
  check_device, check_token_device, check_token_activation, activate, activate_new, add_activation,
  update_activation, new_device, fingerprint_hash,
}
use license_guard.Verification.Grant.{assess, add_report, client}
use license_guard.Verification.Outcome.{
  IsActivated, assessed, assess-eq, check_device-go, check_token_device-go,
  check_token_activation-go,
}
use license_guard.Verification.{admit}

module _ (env : Env) (input : ClientVerificationInput) where
  -- The device that the request's fingerprint finds.
  abbrev pub IsStored : Server → Device → Type 0
  IsStored s d = find_device_by_fingerprint_locked s (fingerprint_hash env input) ≡ some d

  -- If the fingerprint finds a device, it is that device, and its status is the one it has.
  abbrev pub IsKnown : Server → Device → Type 0
  IsKnown s d = (d' : Device) → IsStored s d' → (d'.id ≡ d.id) × (d'.status ≡ d.status)

  added-IsStored :
      (s : Server)
      → find_device_by_fingerprint_locked s (fingerprint_hash env input) ≡ none
      → IsStored (add_device (new_device env input) s) (new_device env input)
  unfolding find_device_by_fingerprint_locked add_device new_device find_first
  added-IsStored s e =
      find_first-append (has_fingerprint (fingerprint_hash env input)) s.contents.devices
        (new_device env input ∷ []) e
      ∙ ground (arith, eq_refl (fingerprint_hash env input))

  -- A write to the device that keeps its fingerprint.
  updated-IsStored :
      (s : Server) (d : Device) (f : Device → Device)
      → (f d).device_fingerprint_hash ≡ d.device_fingerprint_hash
      → IsStored s d
      → IsStored (update_device env input f s) (f d)
  unfolding find_device_by_fingerprint_locked update_device
  updated-IsStored s d f kept h =
      let is_ours = has_fingerprint (fingerprint_hash env input) in
      find_first-update_first is_ours f s.contents.devices h (
        ap (λ x. x == fingerprint_hash env input) kept
        ∙ find_first-holds is_ours s.contents.devices h)

  find_device-IsStored :
      (s : Server) {t : Server} {d : Device}
      → find_or_create_device_locked env input s ≡ go t d
      → IsStored t d × IsKnown s d
  unfolding find_or_create_device_locked
  find_device-IsStored s {t} {d} h =
      elim (Option-cases (find_device_by_fingerprint_locked s (fingerprint_hash env input))) [
        | inl e ↦
            let server : add_device (new_device env input) s ≡ t = ground (arith, e) in
            let device : new_device env input ≡ d = ground (arith, e) in
            (
              subst (λ x. IsStored x d) server
                  (subst (IsStored (add_device (new_device env input) s)) device
                    (added-IsStored s e)),
              λ d' e'. absurd (ground (arith, e, e')),
            )
        | inr (d0, e) ↦
            let server : update_device env input (refresh_device env input) s ≡ t =
              ground (arith, e) in
            let device : refresh_device env input d0 ≡ d = ground (arith, e) in
            (
              subst (λ x. IsStored x d) server
                  (subst (IsStored (update_device env input (refresh_device env input) s)) device
                    (updated-IsStored s d0 (refresh_device env input) refl e)),
              λ d' e'. (ground (arith, e, e', device), ground (arith, e, e', device)),
            )
      ]

  activate-devices :
      (key : String) (subject : Subject) (d : Device) (s : Server) {t : Server} {u : Unit {0}}
      → activate env key subject d s ≡ go t u
      → t.contents.devices ≡ s.contents.devices
  unfolding activate activate_new update_activation add_activation deny save_and_deny
  activate-devices key subject d s h = ground arith

  pub IsStored-same :
      (s t : Server) {d : Device}
      → t.contents.devices ≡ s.contents.devices
      → IsStored s d
      → IsStored t d
  unfolding find_device_by_fingerprint_locked
  IsStored-same s t e h = rw e h

  -- An admitted device is stored, and if it was stored before, it is the one that was found.
  pub admit-IsStored :
      (key : String) (subject : Subject) (s : Server) {t : Server} {d : Device}
      → admit env key input subject s ≡ go t d
      → IsStored t d × IsKnown s d
  unfolding admit
  admit-IsStored key subject s {t} {d} h =
      let (t1, d', h1, r1) = >>=-eq-go (find_or_create_device_locked env input s) _ h in
      let (t2, h2, r2) = >>-eq-go (check_device env key subject d' t1) _ r1 in
      let (t3, h3, r3) = >>-eq-go (check_token_device env key subject d' t2) _ r2 in
      let (t4, h4, r4) = >>-eq-go (check_token_activation env key subject d' t3) _ r3 in
      let (t5, h5, r5) = >>-eq-go (activate env key subject d' t4) _ r4 in
      let (stored, known) = find_device-IsStored s h1 in
      let e2 = (check_device-go env key subject d' t1 h2).1 in
      let e3 = (check_token_device-go env key subject d' t2 h3).1 in
      let e4 = check_token_activation-go env key subject d' t3 h4 in
      let devices : t5.contents.devices ≡ t1.contents.devices =
        activate-devices key subject d' t4 h5 ∙ ap (λ x. x.contents.devices) (e4 ∙ e3 ∙ e2) in
      let server : t5 ≡ t = ground (arith, r5) in
      let device : d' ≡ d = ground (arith, r5) in
      subst (λ x. IsStored t x × IsKnown s x) device
        (subst (λ x. IsStored x d') server (IsStored-same t1 t5 devices stored), known)

  find_device-activations :
      (s : Server) {t : Server} {d : Device}
      → find_or_create_device_locked env input s ≡ go t d
      → t.contents.activations ≡ s.contents.activations
  unfolding find_or_create_device_locked update_device add_device
  find_device-activations s h = ground arith

  not_inactive :
      (o : Option Activation)
      → is_inactive o ≡ false
      → (a : Activation) × (o ≡ some a) × (a.activation_status ≡ "active")
  not_inactive none h = absurd (ground arith)
  not_inactive (some a) h = (a, refl, ground (arith, eq_iff a.activation_status "active"))

  check_token_activation-IsActivated :
      (key : String) (subject : Subject) (d : Device) (s : Server) {t : Server} {u : Unit {0}}
      {c : LicenseTokenClaims}
      → check_token_activation env key subject d s ≡ go t u
      → subject.claims ≡ some c
      → IsActivated s subject.license.id d.id
  unfolding check_token_activation deny save_and_deny
  check_token_activation-IsActivated key subject d s h e =
      not_inactive (find_activation_locked s subject.license.id d.id) (ground (arith, e))

  IsActivated-as :
      (s t : Server) (license_id device_id : String)
      → t.contents.activations ≡ s.contents.activations
      → IsActivated t license_id device_id
      → IsActivated s license_id device_id
  unfolding find_activation_locked
  IsActivated-as s t license_id device_id e (a, found, active) = (a, rw e at found, active)

  -- A device that is admitted by a token had the license active on it.
  pub admit-IsActivated :
      (key : String) (subject : Subject) (s : Server) {t : Server} {d : Device}
      {c : LicenseTokenClaims}
      → admit env key input subject s ≡ go t d
      → subject.claims ≡ some c
      → IsActivated s subject.license.id d.id
  unfolding admit
  admit-IsActivated key subject s {t} {d} h e =
      let (t1, d', h1, r1) = >>=-eq-go (find_or_create_device_locked env input s) _ h in
      let (t2, h2, r2) = >>-eq-go (check_device env key subject d' t1) _ r1 in
      let (t3, h3, r3) = >>-eq-go (check_token_device env key subject d' t2) _ r2 in
      let (t4, h4, r4) = >>-eq-go (check_token_activation env key subject d' t3) _ r3 in
      let (t5, h5, r5) = >>-eq-go (activate env key subject d' t4) _ r4 in
      let e2 = (check_device-go env key subject d' t1 h2).1 in
      let e3 = (check_token_device-go env key subject d' t2 h3).1 in
      let device : d' ≡ d = ground (arith, r5) in
      subst (λ x. IsActivated s subject.license.id x.id) device
        (IsActivated-as s t3 subject.license.id d'.id
          (ap (λ x. x.contents.activations) (e3 ∙ e2) ∙ find_device-activations s h1)
          (check_token_activation-IsActivated key subject d' t3 h4 e))

  -- What the assessment writes to the device.
  abbrev seen : Evaluation → Device → Device
  seen v d = record d { risk_score = v.risk.score; last_seen_at = env.time 1648 }

  assessed-IsStored :
      (key : String) (subject : Subject) (d : Device) (v : Evaluation)
      → IsStored v.server d
      → IsStored (assessed env key input subject d v) (seen v d)
  unfolding add_report
  assessed-IsStored key subject d v h =
      IsStored-same (update_device env input (seen v) v.server) (assessed env key input subject d v)
        refl (updated-IsStored v.server d (seen v) refl h)

  add_events-devices :
      (s : Server) (events : List RiskEvent)
      → (add_events events s).contents.devices ≡ s.contents.devices
  unfolding add_events
  add_events-devices s events = refl

  -- The assessment writes the device, and leaves its name and its status.
  pub assess-IsStored :
      (key : String) (subject : Subject) (d : Device) (s : Server) {t : Server} {risk : RiskResult}
      → assess env key input subject d s ≡ go t risk
      → IsStored s d
      → (d' : Device) × IsStored t d' × (d'.id ≡ d.id) × (d'.status ≡ d.status)
  assess-IsStored key subject d s h stored =
      let v = evaluate_integrity_locked env s (client input subject d) in
      let (allowed, e) = assess-eq env key input subject d s h in
      let same = evaluate_integrity_locked-events env s (client input subject d) in
      (
        seen v d,
        subst (λ x. IsStored x (seen v d)) (sym e)
            (assessed-IsStored key subject d v (
              IsStored-same s v.server (ap (λ x. x.contents.devices) same ∙ add_events-devices s _)
                stored)),
        refl,
        refl,
      )
