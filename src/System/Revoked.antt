-- ===== src/System/Revoked.antt =====
-- A license that is not active stays so, whatever its clients ask for (internal/licensecore/server.go).
use license_guard.Base.{String, some, ◌≡◌, ◌≢◌, refl, ap, is_empty, true, false}
use license_guard.Types.{License, LicenseTokenClaims, CapabilityDecision}
use license_guard.Token.{valid, verify_license_token}
use license_guard.Server.{Server, Env, Request}
use license_guard.Server.Find.{find_license_by_id_locked, has_license_id}
use license_guard.Session.{decided, handle_capability_check}
use license_guard.Verification.Monad.{allows}
use license_guard.Verification.Licensing.{ClientVerificationInput}
use license_guard.Verification.{process_client_verification}
use license_guard.Verification.Frame.{find_first-Expiry}
use license_guard.Admin.Revocation.{IsInactive, not_decided, not_verified}
use license_guard.System.{Reaches}
use license_guard.System.Clients.{reaches-Frame}

reaches-IsInactive :
    {s s' : Server} (license_id : String) {l : License}
    → Reaches s s'
    → find_license_by_id_locked s license_id ≡ some l
    → l.status ≢ "active"
    → IsInactive s s' license_id
unfolding find_license_by_id_locked
reaches-IsInactive {s} {s'} license_id h found inactive =
    let frame = reaches-Frame h in
    let (l', found', inactive') =
      find_first-Expiry (has_license_id license_id) (λ x. refl) frame.licenses found inactive in
    (l', found', inactive', ap (λ x. x.public_key) frame.kept)

-- While a license is stored as one that is not active, clients cannot help themselves: after any number
-- of their requests of any kind, a token that names the license gets no decision on a capability, and a
-- request that brings it in place of a license key is refused.
pub reaches-refused :
    (s s' : Server) (license_id : String) (l : License)
    → Reaches s s'
    → find_license_by_id_locked s license_id ≡ some l
    → l.status ≢ "active"
    → (env : Env) (license_token : String) (c : LicenseTokenClaims)
    → verify_license_token env.crypto s.public_key (env.time 1569) license_token true ≡ valid c
    → c.license_id ≡ license_id
    → (app_id capability : String) (d : CapabilityDecision) (r : Request)
      (input : ClientVerificationInput)
    → is_empty input.license_key ≡ true
    → input.license_token ≡ license_token
    → ((handle_capability_check env s' app_id license_token capability).1 ≢ decided d)
      × (allows (process_client_verification env s' r input).1 ≡ false)
reaches-refused s s' license_id l h found inactive env license_token c token of_license app_id
      capability d r input no_key same =
    let stays = reaches-IsInactive license_id h found inactive in
    (
      not_decided env s s' license_id license_token c stays of_license token app_id capability d,
      not_verified env s s' license_id license_token c stays of_license token r input no_key same,
    )
