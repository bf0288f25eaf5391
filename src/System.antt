-- ===== src/System.antt =====
-- The server as its clients meet it (internal/licensecore/server.go): the requests that the client endpoints take,
-- and the states that they lead to.
pub mod Clients
pub mod Revoked
use license_guard.Base.{String}
use license_guard.Server.{Server, Env, Request}
use license_guard.Challenge.{ChallengeRequest, handle_challenge}
use license_guard.Verification.{VerifyBody, handle_activate, handle_verify}
use license_guard.Session.{handle_capability_check, handle_deactivate}
use license_guard.Session.Heartbeat.{Heartbeat, handle_heartbeat}

-- The bodies of the client endpoints.
pub data ClientRequest : Type 0 where
  ask_challenge : ChallengeRequest → ClientRequest
  activation : VerifyBody → ClientRequest
  verification : VerifyBody → ClientRequest
  -- the app, the token and the capability
  capability_check : String → String → String → ClientRequest
  heartbeat : Heartbeat → ClientRequest
  -- the app, the token and the installation
  deactivation : String → String → String → ClientRequest

-- The server after a request, which the handler of its endpoint answers (ServeHTTP).
unfoldable pub serve : Env → Server → Request → ClientRequest → Server
serve env s r (ask_challenge req) = (handle_challenge env s r req).0
serve env s r (activation req) = (handle_activate env s r req).0
serve env s r (verification req) = (handle_verify env s r req).0
serve env s r (capability_check app_id license_token capability) =
    (handle_capability_check env s app_id license_token capability).0
serve env s r (heartbeat h) = (handle_heartbeat env s h).0
serve env s r (deactivation app_id license_token install_id) =
    (handle_deactivate env s app_id license_token install_id).0

-- The server that client requests, of any number and at any times, lead to.
pub data Reaches (s : Server) : Server → Type 0 where
  here : Reaches s s
  answers :
      {s' : Server} (env : Env) (r : Request) (req : ClientRequest)
      → Reaches s s'
      → Reaches s (serve env s' r req)
