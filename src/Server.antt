-- ===== src/Server.antt =====
-- The state of the license server (internal/licensecore/server.go), and what surrounds it: the clock,
-- the random source, the hash functions, the store.
pub mod Find
use license_guard.Base.{
  ℕ, ℤ, String, List, [], ◌∷◌, ◌++◌, Option, none, some, Dict, Bool, concat, Result,
}
use license_guard.Types.{Data, Challenge, Time, RiskEvent, Value, RiskResult, VerifyResponse}
use license_guard.Token.{Bytes, Crypto}

pub record AdminSession : Type 0 where
  pub admin_id : String
  pub expires_at : Time

pub record RateLimitState : Type 0 where
  pub window_start : Time
  pub failures : ℤ

-- The struct Server. Its field `data` is `contents` here. The mutex is not modelled: each handler holds
-- it over the part that is modelled as one step. `saves` lists what `store.Save` has been handed.
pub record Server : Type 0 where
  pub contents : Data
  pub saves : List Data
  pub public_key : Bytes
  pub private_key : Bytes
  pub challenges : Dict Challenge
  pub admin_sessions : Dict AdminSession
  pub cors_allowed_origins : List String
  pub public_base_url : String
  pub rate_limits : Dict RateLimitState
  pub rate_limit_window : ℤ
  pub rate_limit_failures : ℤ

-- What is outside the program during one request. A call site in server.go goes by its line: `time l`
-- is what time.Now() returned at line l, and the sites of one request are independent readings.
pub record Env : Type 0 where
  pub time : ℕ → Time
  -- the formatted time and the random part of the newID called at a line
  pub id_time : ℕ → String
  pub random_string : ℕ → ℕ → String
  -- the randomString calls of generateLicenseKey, in their order
  pub random_part : ℕ → String
  pub sha256_hex : String → String
  pub crc32 : String → ℕ
  -- bcrypt: whether a hash is of a password, and a hash of a password
  pub compare_password : String → String → Bool
  pub hash_password : String → Result String
  -- time.Parse of a date, YYYY-MM-DD
  pub parse_date : String → Option Time
  -- net.SplitHostPort: the host, if there is no error
  pub split_host_port : String → Option String
  -- the error of `store.Save`, given what the store was handed before
  pub save : List Data → Data → Option String
  pub crypto : Crypto
  -- base64.StdEncoding.EncodeToString
  pub encode_std : Bytes → String

-- The parts of an *http.Request that the handlers read.
pub record Request : Type 0 where
  pub method : String
  pub remote_addr : String
  pub forwarded_for : String
  pub user_agent : String
  pub authorization : String

-- newID
unfoldable pub new_id : Env → ℕ → String → String
new_id env line prefix =
    concat (prefix ∷ "_" ∷ env.id_time line ∷ "_" ∷ env.random_string line 8 ∷ [])

-- hashString
abbrev pub hash_string : Env → String → String
hash_string env value = env.sha256_hex value

-- saveLocked
unfoldable pub save_locked : Env → Server → Server × Option String
save_locked env s = (record s { saves = s.saves ++ s.contents ∷ [] }, env.save s.saves s.contents)

-- The event that addRiskEventLocked adds, called at a line.
unfoldable pub risk_event :
    Env
    → ℕ
    → String
    → String
    → String
    → String
    → String
    → String
    → String
    → Option (Dict Value)
    → RiskEvent
unfolding new_id
risk_event env line app_id device_id license_id event_type severity action summary metadata =
    record {
      id = new_id env line "risk";
      app_id = app_id;
      device_id = device_id;
      license_id = license_id;
      event_type = event_type;
      severity = severity;
      action = action;
      summary = summary;
      metadata = metadata;
      created_at = env.time line;
      resolved_at = none;
    }

-- The server with more risk events.
unfoldable pub add_events : List RiskEvent → Server → Server
add_events events s = record s {
  contents = record s.contents { risk_events = s.contents.risk_events ++ events };
}

-- addRiskEventLocked
unfoldable pub add_risk_event_locked :
    Env
    → ℕ
    → String
    → String
    → String
    → String
    → String
    → String
    → String
    → Option (Dict Value)
    → Server
    → Server
unfolding risk_event add_events
add_risk_event_locked env line app_id device_id license_id event_type severity action summary
      metadata =
    add_events (
      risk_event env line app_id device_id license_id event_type severity action summary metadata
      ∷ [])
