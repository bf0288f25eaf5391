-- ===== src/Session/Revocation.antt =====
-- What a capability check (internal/licensecore/server.go, handleCapabilityCheck) rests on.
use license_guard.Base.{
  ℕ, String, Bool, true, false, ◌&&◌, Option, none, some, ◌≡◌, arith, refl, sym, ◌∙◌, ap,
  Bool-cases, inl, inr, eq_iff, trim_space, is_empty, not, ◌==◌,
}
use license_guard.Types.{LicenseTokenClaims, License, Activation, CapabilityDecision}
use license_guard.Token.{TokenResult, valid, expired, invalid, verify_license_token}
use license_guard.Server.{Server, Env}
use license_guard.Server.Find.{
  find_license_by_id_locked, find_activation_locked, find_capability_policy_locked,
}
use license_guard.Capability.{capability_decision}
use license_guard.Capability.Decisions.{IsEntitled, capability_decision-IsEntitled}
use license_guard.Session.{
  SessionReply, failure, decided, deactivated, alive, not_alive, with_token, save_and_reply,
  is_active_license, is_active_activation, decide, check_capability, handle_capability_check,
}

-- All that a capability rests on.
pub record IsAllowed (env : Env) (s : Server) (app_id license_token name : String) : Type 0 where
  pub claims : LicenseTokenClaims
  pub token :
      verify_license_token env.crypto s.public_key (env.time 1409) license_token false
      ≡ valid claims
  pub app_named : is_empty app_id ≡ false → claims.app_id ≡ app_id
  pub license : License
  pub found : find_license_by_id_locked s claims.license_id ≡ some license
  pub of_app : license.app_id ≡ claims.app_id
  pub license_active : license.status ≡ "active"
  pub activation : Activation
  pub activated : find_activation_locked s claims.license_id claims.device_id ≡ some activation
  pub activation_active : activation.activation_status ≡ "active"
  pub entitled :
      IsEntitled (find_capability_policy_locked s claims.app_id name) license.entitlements

abbrev pub is_failure : SessionReply → Bool
is_failure (failure status code message) = true
is_failure (decided d) = false
is_failure (deactivated b t) = false
is_failure (alive risk t) = false
is_failure (not_alive risk t) = false

-- What a token has shown when a handler goes on with it.
abbrev pub Shown :
    Env → ℕ → Server → String → String → (LicenseTokenClaims → Server × SessionReply) → Type 0
Shown env line s license_token app_id go =
    (c : LicenseTokenClaims) × (verify_license_token env.crypto s.public_key (env.time line)
        license_token false
      ≡ valid c)
    × (is_empty app_id ≡ false → c.app_id ≡ app_id)
    × (with_token env line s license_token app_id go ≡ go c)

pub with_token-Shown :
    (env : Env) (line : ℕ) (s : Server) (license_token app_id : String)
    (go : LicenseTokenClaims → Server × SessionReply)
    → is_failure (with_token env line s license_token app_id go).1 ≡ false
    → Shown env line s license_token app_id go
unfolding with_token
with_token-Shown env line s license_token app_id go h =
    by_result (verify_license_token env.crypto s.public_key (env.time line) license_token false)
      refl
  where
    by_result :
        (r : TokenResult)
        → verify_license_token env.crypto s.public_key (env.time line) license_token false ≡ r
        → Shown env line s license_token app_id go
    by_result (invalid e) k = absurd (ground (arith, k))
    by_result (expired c) k = absurd (ground (arith, k))
    by_result (valid c) k = elim (Bool-cases (not (is_empty app_id) && not (c.app_id == app_id))) [
      | inl e ↦ absurd (ground (arith, k, e))
      | inr e ↦ (c, k, (λ f. ground (arith, eq_iff c.app_id app_id)), rw (with_token, k, e) refl)
    ]

decide-decided :
    (env : Env) (s : Server) (c : LicenseTokenClaims) (lic : License) (name : String)
    {d : CapabilityDecision}
    → (decide env s c (some lic) name).1 ≡ decided d
    → capability_decision (find_capability_policy_locked s c.app_id name) lic.entitlements name ≡ d
unfolding decide save_and_reply
decide-decided env s c lic name h = ground arith

is_active_license-holds :
    (app_id : String) (o : Option License)
    → is_active_license app_id o ≡ true
    → (l : License) × (o ≡ some l) × (l.app_id ≡ app_id) × (l.status ≡ "active")
is_active_license-holds app_id none h = absurd (ground arith)
is_active_license-holds app_id (some l) h =
    (l, refl, ground (arith, eq_iff l.app_id app_id), ground (arith, eq_iff l.status "active"))

is_active_activation-holds :
    (o : Option Activation)
    → is_active_activation o ≡ true
    → (a : Activation) × (o ≡ some a) × (a.activation_status ≡ "active")
is_active_activation-holds none h = absurd (ground arith)
is_active_activation-holds (some a) h =
    (a, refl, ground (arith, eq_iff a.activation_status "active"))

pub check_capability-decided :
    (env : Env) (s : Server) (name : String) (c : LicenseTokenClaims) {d : CapabilityDecision}
    → (check_capability env s name c).1 ≡ decided d
    → (is_active_license c.app_id (find_license_by_id_locked s c.license_id) ≡ true)
      × (is_active_activation (find_activation_locked s c.license_id c.device_id) ≡ true)
      × ((decide env s c (find_license_by_id_locked s c.license_id) name).1 ≡ decided d)
unfolding check_capability
check_capability-decided env s name c h = ground arith

pub handle_capability_check-Shown :
    (env : Env) (s : Server) (app_id license_token capability : String) {d : CapabilityDecision}
    → (handle_capability_check env s app_id license_token capability).1 ≡ decided d
    → let checked = check_capability env s (trim_space capability) in
      (shown : Shown env 1409 s license_token app_id checked) × ((checked shown.0).1 ≡ decided d)
unfolding handle_capability_check
handle_capability_check-Shown env s app_id license_token capability {d} h =
    let checked = check_capability env s (trim_space capability) in
    let out : (with_token env 1409 s license_token app_id checked).1 ≡ decided d = ground arith in
    let shown = with_token-Shown env 1409 s license_token app_id checked (ap is_failure out) in
    (shown, ap (λ p. p.1) (sym shown.3) ∙ out)

-- No decision is made without an active license.
pub handle_capability_check-license :
    (env : Env) (s : Server) (app_id license_token capability : String) {d : CapabilityDecision}
    → (handle_capability_check env s app_id license_token capability).1 ≡ decided d
    → (c : LicenseTokenClaims) × (verify_license_token env.crypto s.public_key
          (env.time 1409)
          license_token
          false
        ≡ valid c)
      × (l : License) × (find_license_by_id_locked s c.license_id ≡ some l)
      × (l.status ≡ "active")
handle_capability_check-license env s app_id license_token capability h =
    let ((c, token, named, same), made) =
      handle_capability_check-Shown env s app_id license_token capability h in
    let (lic_ok, act_ok, by) = check_capability-decided env s (trim_space capability) c made in
    let (l, found, of_app, active) =
      is_active_license-holds c.app_id (find_license_by_id_locked s c.license_id) lic_ok in
    (c, token, l, found, active)

-- A capability check allows only what this all holds of: the token is valid, has not expired, and is
-- for the app that the request names, if it names one; the license is found, active and of the
-- token's app; it is active on the token's device; and the capability, under its name without
-- surrounding space, has a policy for which the license itself has the entitlement.
pub handle_capability_check-IsAllowed :
    (env : Env) (s : Server) (app_id license_token capability : String) (d : CapabilityDecision)
    → (handle_capability_check env s app_id license_token capability).1 ≡ decided d
    → d.allowed ≡ true
    → IsAllowed env s app_id license_token (trim_space capability)
handle_capability_check-IsAllowed env s app_id license_token capability d h allowed =
    let name = trim_space capability in
    let ((c, token, named, same), made) =
      handle_capability_check-Shown env s app_id license_token capability h in
    let (lic_ok, act_ok, by) = check_capability-decided env s name c made in
    let (l, found, of_app, active) =
      is_active_license-holds c.app_id (find_license_by_id_locked s c.license_id) lic_ok in
    let (a, activated, activation_active) =
      is_active_activation-holds (find_activation_locked s c.license_id c.device_id) act_ok in
    let decision =
      decide-decided env s c l name (ap (λ o. (decide env s c o name).1) (sym found) ∙ by) in
    record {
      claims = c;
      token = token;
      app_named = named;
      license = l;
      found = found;
      of_app = of_app;
      license_active = active;
      activation = a;
      activated = activated;
      activation_active = activation_active;
      entitled =
          (capability_decision-IsEntitled (find_capability_policy_locked s c.app_id name)
              l.entitlements name).0
            (ap (λ x. x.allowed) decision ∙ allowed);
    }
