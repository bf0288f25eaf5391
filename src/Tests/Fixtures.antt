-- ===== src/Tests/Fixtures.antt =====
-- A server with one app, one license and one challenge, and a client that asks for an activation.
use license_guard.Base.{◌==◌, ℕ, pos, ◌*◌, String, [], ◌∷◌, Bool, true, false, none, ok, err}
use license_guard.Types.{
  Data, App, AppRelease, License, CapabilityPolicy, Challenge, DeviceInfo, IntegrityRequest,
  VerifyResponse, Time, second,
}
use license_guard.Token.{Crypto}
use license_guard.Server.{Server, Env, Request}
use license_guard.Settings.{default_system_settings}
use license_guard.Integrity.Checks.{Client}
use license_guard.Challenge.{ChallengeRequest}
use license_guard.Verification.Monad.{Reply, failure, verify}
use license_guard.Verification.Licensing.{ClientVerificationInput, risk}

abbrev pub now : Time
now = 64000000000 * second

-- A codec without a memory.
abbrev crypto : Crypto
crypto = record {
  sign = λ key message. key;
  verify = λ key message signature. true;
  encode = λ b. "x";
  decode = λ t. ok [];
  marshal_header = ok [];
  marshal_claims = λ c. ok [];
  unmarshal_claims = λ b. err "not read";
  marshal_bundle = λ b. ok [];
}

abbrev pub env : Env
env = record {
  time = λ line. now;
  id_time = λ line. "20260101";
  random_string = λ line n. "rnd";
  random_part = λ i. "abcdef";
  sha256_hex = λ t. t;
  crc32 = λ t. 42;
  compare_password = λ hash password. hash == password;
  hash_password = λ password. ok password;
  parse_date = λ t. none;
  split_host_port = λ t. none;
  save = λ history contents. none;
  crypto = crypto;
  encode_std = λ b. "key";
}

abbrev pub app : App
app = record {
  id = "app_1";
  app_key = "visionflow";
  name = "VisionFlow";
  description = "";
  owner_team = "";
  status = "active";
  created_at = 0;
  updated_at = 0;
}

abbrev pub license : License
license = record {
  id = "lic_1";
  license_key_hash = "KEY";
  license_key_prefix = "KE";
  app_id = "visionflow";
  plan_name = "pro";
  owner_type = "user";
  owner_ref = "u";
  max_devices = pos 1;
  entitlements = "render" ∷ [];
  expires_at = now;
  status = "active";
  created_at = 0;
  updated_at = 0;
}

abbrev pub release : String → ℕ → AppRelease
release version build = record {
  id = version;
  app_id = "visionflow";
  platform = "windows";
  version = version;
  build_number = pos build;
  channel = "stable";
  status = "active";
  signer_thumbprint = "";
  main_binary_hash = "AA";
  resource_manifest_hash = "";
  business_manifest_sha256 = "";
  protected_db_schema_hash = "";
  protected_db_tables_hash = "";
  assets_manifest_sha256 = "";
  workflow_manifest_sha256 = "";
  download_url = "";
  package_sha256 = "";
  mandatory = true;
  min_supported_version = "";
  rollout_percent = pos 0;
  release_notes = "";
  created_at = 0;
}

abbrev pub policy : String → String → CapabilityPolicy
policy capability entitlement = record {
  app_id = "visionflow";
  capability = capability;
  required_entitlement = entitlement;
  mode = "block";
  message = "";
  limits_json = none;
  created_at = 5;
  updated_at = 5;
}

abbrev pub challenge : Challenge
challenge = record {
  id = "chg_1";
  nonce = "nonce";
  app_id = "visionflow";
  install_id = "inst";
  expires_at = now;
  created_at = 0;
}

abbrev pub contents : Data
contents = record {
  admins = [];
  apps = app ∷ [];
  releases = release "1.2" 12 ∷ release "1.1" 11 ∷ [];
  sdk_keys = [];
  licenses = license ∷ [];
  capability_policies = [];
  devices = [];
  activations = [];
  integrity_reports = [];
  risk_events = [];
  audit_logs = [];
  settings = default_system_settings 0;
}

abbrev pub server : Server
server = record {
  contents = contents;
  saves = [];
  public_key = [];
  private_key = [];
  challenges = ("chg_1", challenge) ∷ [];
  admin_sessions = [];
  cors_allowed_origins = [];
  public_base_url = "";
  rate_limits = [];
  rate_limit_window = pos (60 * second);
  rate_limit_failures = pos 2;
}

abbrev pub device_info : DeviceInfo
device_info = record {
  install_id = "inst";
  fingerprint = "fp";
  os = "windows";
  os_version = "11";
  machine_name_hash = "m";
}

abbrev pub integrity : Bool → IntegrityRequest
integrity debugged = record {
  app_version = "1.1";
  main_binary_hash = "AA";
  signer_thumbprint = "";
  business_manifest_sha256 = "";
  business_manifest_signature_valid = none;
  protected_db_schema_hash = "";
  protected_db_tables_hash = "";
  assets_manifest_sha256 = "";
  workflow_manifest_sha256 = "";
  business_integrity_status = "";
  business_integrity_errors = [];
  db_encryption_status = "";
  db_encryption_errors = [];
  debugger_detected = debugged;
  suspicious_modules = [];
  vm_indicators = [];
}

abbrev pub client : Bool → Client
client debugged = record {
  app_id = "visionflow";
  device_id = "dev_1";
  license_id = "lic_1";
  platform = "windows";
  integrity = integrity debugged;
}

abbrev pub request : Request
request = record {
  method = "POST";
  remote_addr = "10.0.0.1";
  forwarded_for = "";
  user_agent = "";
  authorization = "Bearer adm_1";
}

abbrev pub challenge_request : ChallengeRequest
challenge_request = record {
  app_id = "visionflow";
  platform = "windows";
  install_id = "inst";
  app_version = "1.1";
}

abbrev pub activation : ClientVerificationInput
activation = record {
  app_id = "visionflow";
  platform = "windows";
  license_key = "KEY";
  license_token = "";
  challenge_id = "chg_1";
  nonce = "nonce";
  device = device_info;
  integrity = integrity false;
  is_activation = true;
}

-- The response that is written, or a refusal.
abbrev pub reply_of : Reply → VerifyResponse
reply_of (verify v) = v
reply_of (failure status code message) = record {
  allowed = false;
  code = code;
  message = message;
  license_token = "";
  expires_at = none;
  offline_grace_until = none;
  entitlements = [];
  capability_policy = none;
  device_status = "";
  risk = risk "high" 100 "deny";
  update = none;
}
