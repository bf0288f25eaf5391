-- ===== src/Session/Alive.antt =====
-- What a heartbeat (internal/licensecore/server.go, handleHeartbeat) is answered.
use license_guard.Base.{String, List, Bool, true, false, ◌&&◌, ◌||◌, Option, none, ◌≡◌}
use license_guard.Types.{Data, LicenseTokenClaims, IntegrityRequest, RiskResult, Time}
use license_guard.Server.{Server, Env}
use license_guard.Integrity.{exact_release}
use license_guard.Integrity.Deny.{admits, contradicts_release}
use license_guard.Session.{SessionReply, alive, not_alive}
use license_guard.Session.Heartbeat.{Heartbeat, integrity_request_has_evidence, beating_client}

-- The store takes all that it is handed.
abbrev pub Takes : Env → Type 0
Takes env = (before : List Data) (contents : Data) → env.save before contents ≡ none

-- The report of a client is evidence against it.
abbrev pub is_damning : Server → LicenseTokenClaims → String → IntegrityRequest → Bool
is_damning s claims platform i =
    integrity_request_has_evidence i
    && (contradicts_release i (exact_release s (beating_client claims platform i)) || admits i)

-- The answer by the verdict.
abbrev pub Answer : Bool → Time → SessionReply → Type 0
Answer true now reply = (risk : RiskResult) × (reply ≡ not_alive risk now)
Answer false now reply = (risk : Option RiskResult) × (reply ≡ alive risk now)
