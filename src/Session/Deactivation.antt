-- ===== src/Session/Deactivation.antt =====
-- What a deactivation (internal/licensecore/server.go, handleDeactivate) leaves of a token.
use license_guard.Base.{
  find_first-holds, String, List, [], ◌∷◌, Bool, true, false, some, ◌≡◌, ◌≢◌, arith, refl, sym, ◌∙◌,
  ap, Bool-cases, inl, inr, eq_iff, trim_space, is_empty, find_first, update_first, ◌==◌,
}
use license_guard.Types.{
  VerifyResponse, LicenseTokenClaims, License, Activation, CapabilityDecision, Time,
}
use license_guard.Token.{valid, verify_license_token}
use license_guard.Token.RoundTrip.{verify_license_token-valid}
use license_guard.Server.{Server, Env, Request, save_locked}
use license_guard.Server.Find.{
  has_license_id, find_license_by_id_locked, find_activation_locked, is_activation,
}
use license_guard.Session.{
  decided, deactivated, save_and_reply, is_active_activation, deactivate_activation,
  handle_capability_check, deactivate, deactivate_device, handle_deactivate,
}
use license_guard.Session.Revocation.{
  with_token-Shown, is_failure, handle_capability_check-Shown, check_capability-decided,
}
use license_guard.Verification.Monad.{verify, allows}
use license_guard.Verification.Licensing.{ClientVerificationInput, Subject}
use license_guard.Verification.Soundness.{Names, by_key, by_token}
use license_guard.Verification.Outcome.{IsActivated}
use license_guard.Verification.Granted.{process_client_verification-IsGranted, allows-verify}
use license_guard.Verification.{process_client_verification}

deactivate_activation-key :
    (license_id device_id : String) (now : Time) (a : Activation)
    → is_activation license_id device_id (deactivate_activation now a)
      ≡ is_activation license_id device_id a
deactivate_activation-key license_id device_id now a =
    elim (Bool-cases (a.activation_status == "deactivated")) [ inl e ↦ rw e | inr e ↦ rw e ]

deactivated_status :
    (a : Activation)
    → a.activation_status ≡ "deactivated"
    → (a.activation_status == "active") ≡ false
deactivated_status a h = rw h

deactivate_activation-inactive :
    (now : Time) (a : Activation)
    → is_active_activation (some (deactivate_activation now a)) ≡ false
deactivate_activation-inactive now a = elim (Bool-cases (a.activation_status == "deactivated")) [
  | inl e ↦ rw e (deactivated_status a ((eq_iff a.activation_status "deactivated").0 e))
  | inr e ↦ rw e
]

not_active-deactivated :
    (license_id device_id : String) (now : Time) (activations : List Activation)
    → is_active_activation (
        find_first (is_activation license_id device_id) (
          update_first
            (is_activation license_id device_id)
            (deactivate_activation now)
            activations))
      ≡ false
unfolding find_first update_first
not_active-deactivated license_id device_id now [] = refl
not_active-deactivated license_id device_id now (a ∷ rest) =
    elim (Bool-cases (is_activation license_id device_id a)) [
      | inl e ↦
          rw (e, deactivate_activation-key license_id device_id now a, e)
            (deactivate_activation-inactive now a)
      | inr e ↦ rw (e, e) (not_active-deactivated license_id device_id now rest)
    ]

deactivate_device-done :
    (env : Env) (s : Server) (install_id : String) (c : LicenseTokenClaims) {b : Bool} {t : Time}
    → (deactivate_device env s install_id c).1 ≡ deactivated b t
    → (deactivate_device env s install_id c).0
      ≡ (save_locked env (deactivate (env.time 1466) c s)).0
unfolding deactivate_device save_and_reply
deactivate_device-done env s install_id c h = ground arith

-- The server after the writes of a deactivation, and after its save.
deactivate-refuses :
    (env : Env) (s : Server) (now : Time) (c : LicenseTokenClaims)
    → let s' = (save_locked env (deactivate now c s)).0 in
      (s'.public_key ≡ s.public_key)
      × (is_active_activation (find_activation_locked s' c.license_id c.device_id) ≡ false)
unfolding save_locked deactivate find_activation_locked
deactivate-refuses env s now c =
    (refl, not_active-deactivated c.license_id c.device_id now s.contents.activations)

-- What a confirmed deactivation leaves: the activation that its token names is not active.
handle_deactivate-left :
    (env : Env) (s : Server) (app_id license_token install_id : String) {b : Bool} {t : Time}
    → (handle_deactivate env s app_id license_token install_id).1 ≡ deactivated b t
    → let s' = (handle_deactivate env s app_id license_token install_id).0 in
      (c : LicenseTokenClaims) × (verify_license_token env.crypto s.public_key
          (env.time 1456)
          license_token
          false
        ≡ valid c)
      × (s'.public_key ≡ s.public_key)
      × (is_active_activation (find_activation_locked s' c.license_id c.device_id) ≡ false)
unfolding handle_deactivate
handle_deactivate-left env s app_id license_token install_id {b} {t} h =
    let go = deactivate_device env s install_id in
    let (c, token, of_app, same) =
      with_token-Shown env 1456 s license_token app_id go (ap is_failure h) in
    let written =
      ap (λ p. p.0) same
      ∙ deactivate_device-done env s install_id c (ap (λ p. p.1) (sym same) ∙ h) in
    let (keys, inactive) = deactivate-refuses env s (env.time 1466) c in
    (
      c,
      token,
      ap (λ x. x.public_key) written ∙ keys,
      ap (λ x. is_active_activation (find_activation_locked x c.license_id c.device_id)) written
          ∙ inactive,
    )

found-id :
    (s : Server) (id : String) {l : License} → find_license_by_id_locked s id ≡ some l → l.id ≡ id
unfolding find_license_by_id_locked
found-id s id {l} h =
    (eq_iff l.id id).0 (find_first-holds (has_license_id id) s.contents.licenses h)

module _ (env : Env) (s s' : Server) (license_token : String) (c : LicenseTokenClaims)
    (token : verify_license_token env.crypto s.public_key (env.time 1456) license_token false
      ≡ valid c)
    (keys : s'.public_key ≡ s.public_key)
    (inactive : is_active_activation (find_activation_locked s' c.license_id c.device_id)
      ≡ false) where
  not_decided :
      (named capability : String) (d : CapabilityDecision)
      → (handle_capability_check env s' named license_token capability).1 ≢ decided d
  not_decided named capability d k =
      let ((c', token', named', same'), made) =
        handle_capability_check-Shown env s' named license_token capability k in
      let (license_ok, active, by) =
        check_capability-decided env s' (trim_space capability) c' made in
      let same : c ≡ c' =
        verify_license_token-valid env.crypto s.public_key (env.time 1456) (env.time 1409) false
          false license_token token (rw keys at token') in
      cc

  is_not_active :
      {a : Activation}
      → find_activation_locked s' c.license_id c.device_id ≡ some a
      → a.activation_status ≡ "active"
      → ⊥
  is_not_active {a} found active =
      ground (arith, inactive, found, (eq_iff a.activation_status "active").1 active)

  -- A request by the token is let run only where the license is active on the token's device.
  not_granted :
      (r : Request) (input : ClientVerificationInput) (v : VerifyResponse)
      → is_empty input.license_key ≡ true
      → input.license_token ≡ license_token
      → (process_client_verification env s' r input).1 ≡ verify v
      → v.allowed ≢ true
  not_granted r input v no_key brought h allowed =
      let granted = process_client_verification-IsGranted env s' r input v h allowed in
      by granted.licensed.names granted.token_device granted.token_activated
    where
      by :
          {subject : Subject} {device_id : String}
          → Names env s' input subject
          → ((c' : LicenseTokenClaims) → subject.claims ≡ some c' → c'.device_id ≡ device_id)
          → ((c' : LicenseTokenClaims)
              → subject.claims ≡ some c'
              → IsActivated s' subject.license.id device_id)
          → ⊥
      by (by_key given found read) device activated = absurd (ground arith)
      by {subject} {device_id} (by_token c' token' found read) device activated =
          let same : c ≡ c' =
            verify_license_token-valid env.crypto s.public_key (env.time 1456) (env.time 1569) false
              true license_token token (rw (keys, brought) at token') in
          let (a, at_device, active) = activated c' read in
          let of_license : subject.license.id ≡ c.license_id =
            found-id s' c'.license_id found ∙ ap (λ x. x.license_id) (sym same) in
          let of_device : device_id ≡ c.device_id =
            sym (device c' read) ∙ ap (λ x. x.device_id) (sym same) in
          is_not_active (rw (of_license, of_device) at at_device) active

-- In the state that a confirmed deactivation leaves, and whatever the clock says then, the token that it was
-- made with gets no decision on any capability, for whatever app the request names; and no request that
-- brings it in place of a license key is let run.
pub handle_deactivate-revokes :
    (env : Env) (s : Server) (app_id license_token install_id : String) (b : Bool) (t : Time)
    → (handle_deactivate env s app_id license_token install_id).1 ≡ deactivated b t
    → (named capability : String) (d : CapabilityDecision) (r : Request)
      (input : ClientVerificationInput)
    → is_empty input.license_key ≡ true
    → input.license_token ≡ license_token
    → let s' = (handle_deactivate env s app_id license_token install_id).0 in
      ((handle_capability_check env s' named license_token capability).1 ≢ decided d)
      × (allows (process_client_verification env s' r input).1 ≡ false)
handle_deactivate-revokes env s app_id license_token install_id b t h named capability d r input
      no_key brought =
    let s' = (handle_deactivate env s app_id license_token install_id).0 in
    let (c, token, keys, inactive) =
      handle_deactivate-left env s app_id license_token install_id h in
    (
      not_decided env s s' license_token c token keys inactive named capability d,
      elim (Bool-cases (allows (process_client_verification env s' r input).1)) [
        | inr e ↦ e
        | inl e ↦
            let (v, reply, allowed) =
              allows-verify (process_client_verification env s' r input).1 e in
            absurd (
              not_granted env s s' license_token c token keys inactive r input v no_key brought
                reply allowed)
      ],
    )
