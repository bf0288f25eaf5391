-- ===== src/Admin/Apps.antt =====
-- Apps and their SDK keys (internal/licensecore/server.go: handleApps, handleSDKKeyRotate, newSDKKey, sdkKeyView,
-- sdkKeyPrefix), on decoded bodies.
use license_guard.Base.{
  pos, String, [], ◌∷◌, ◌++◌, map, Bool, true, false, ◌&&◌, ◌||◌, not, none, some, if◌then◌else◌,
  is_empty, is_some, ◌==◌, concat, leb, length, utf8, first_chars,
}
use license_guard.Types.{App, AppRelease, SdkKey, SdkKeyView, Time, text}
use license_guard.Server.{Server, Env, Request, new_id, hash_string}
use license_guard.Server.Find.{find_app_locked}
use license_guard.Capability.Registry.{
  is_vision_flow_app_key, ensure_default_vision_flow_policies_locked,
}
use license_guard.Audit.{audit_locked}
use license_guard.Admin.{AdminReply, failure, new_app, new_key, method_not_allowed, save_then}
use license_guard.Admin.Catalog.{text_or}

-- sdkKeyPrefix
unfoldable pub sdk_key_prefix : String → String
sdk_key_prefix secret = if leb (length (utf8 secret)) 16 then secret else first_chars 16 secret

-- The secret of a new key.
abbrev pub sdk_secret : Env → String
sdk_secret env = concat ("lgsk_" ∷ env.random_string 2608 32 ∷ [])

-- newSDKKey, without the secret
unfoldable pub new_sdk_key : Env → String → String → Time → Bool → SdkKey
unfolding new_id sdk_key_prefix
new_sdk_key env app_id public_key now rotated = record {
  id = new_id env 2610 "sdk";
  app_id = app_id;
  public_key = public_key;
  secret_hash = hash_string env (sdk_secret env);
  key_prefix = sdk_key_prefix (sdk_secret env);
  status = "active";
  last_used_at = none;
  created_at = now;
  rotated_at = if rotated then some now else none;
}

-- sdkKeyView
abbrev pub sdk_key_view : SdkKey → SdkKeyView
sdk_key_view key = record {
  id = key.id;
  app_id = key.app_id;
  public_key = key.public_key;
  key_prefix = key.key_prefix;
  status = key.status;
  last_used_at = key.last_used_at;
  created_at = key.created_at;
  rotated_at = key.rotated_at;
}

-- publicKeyString
abbrev pub public_key_string : Env → Server → String
public_key_string env s = env.encode_std s.public_key

-- The body of a request for an app.
pub record AppRequest : Type 0 where
  pub app_key : String
  pub name : String
  pub description : String
  pub owner_team : String
  pub platform : String
  pub version : String

unfoldable pub made_app : Env → AppRequest → App
unfolding new_id
made_app env req = record {
  id = new_id env 431 "app";
  app_key = req.app_key;
  name = req.name;
  description = req.description;
  owner_team = req.owner_team;
  status = "active";
  created_at = env.time 429;
  updated_at = env.time 429;
}

-- The first release of an app.
unfoldable pub first_release : Env → AppRequest → AppRelease
unfolding new_id
first_release env req = record {
  id = new_id env 441 "rel";
  app_id = req.app_key;
  platform = text_or req.platform "windows";
  version = text_or req.version "1.0.0";
  build_number = pos 1;
  channel = "production";
  status = "active";
  signer_thumbprint = "";
  main_binary_hash = "";
  resource_manifest_hash = "";
  business_manifest_sha256 = "";
  protected_db_schema_hash = "";
  protected_db_tables_hash = "";
  assets_manifest_sha256 = "";
  workflow_manifest_sha256 = "";
  download_url = "";
  package_sha256 = "";
  mandatory = false;
  min_supported_version = "";
  rollout_percent = pos 100;
  release_notes = "";
  created_at = env.time 429;
}

-- The writes for a new app.
unfoldable pub add_app : Env → AppRequest → Server → Server
unfolding made_app first_release new_sdk_key
add_app env req s =
    let added = record s {
      contents = record s.contents {
        apps = s.contents.apps ++ made_app env req ∷ [];
        releases = s.contents.releases ++ first_release env req ∷ [];
        sdk_keys =
            s.contents.sdk_keys
            ++ new_sdk_key env req.app_key (public_key_string env s) (env.time 429) false ∷ [];
      };
    } in
    if is_vision_flow_app_key req.app_key
    then (ensure_default_vision_flow_policies_locked added req.app_key (env.time 429)).0
    else added

-- handleApps with POST
unfoldable pub create_app : Env → Server → Request → String → AppRequest → Server × AdminReply
unfolding add_app made_app first_release new_sdk_key save_then
create_app env s r admin_id req =
    if is_empty req.app_key || is_empty req.name
    then (s, failure 400 "INVALID_REQUEST" "app_key and name are required")
    else if is_some (find_app_locked s req.app_key)
    then (s, failure 409 "APP_EXISTS" "app_key already exists")
    else save_then env
        (new_app (made_app env req) (first_release env req)
          (sdk_key_view
            (new_sdk_key env req.app_key (public_key_string env s) (env.time 429) false))
          (sdk_secret env))
        (audit_locked env 465 admin_id "app.create" "app" req.app_key r
          (some (("name", text req.name) ∷ [])) (add_app env req s))

-- The write to each key of the app that is in use.
abbrev pub retire_key : String → Time → SdkKey → SdkKey
retire_key app_id now key =
    if key.app_id == app_id && key.status == "active"
    then record key { status = "rotated"; rotated_at = some now }
    else key

unfoldable pub rotate_keys : Env → String → Server → Server
unfolding new_sdk_key
rotate_keys env app_id s = record s {
  contents = record s.contents {
    sdk_keys =
        map (retire_key app_id (env.time 857)) s.contents.sdk_keys
        ++ new_sdk_key env app_id (public_key_string env s) (env.time 857) true ∷ [];
  };
}

-- handleSDKKeyRotate
unfoldable pub handle_sdk_key_rotate :
    Env → Server → Request → String → String → Server × AdminReply
unfolding rotate_keys new_sdk_key save_then
handle_sdk_key_rotate env s r app_id admin_id =
    let key = new_sdk_key env app_id (public_key_string env s) (env.time 857) true in
    if not (r.method == "POST")
    then (s, method_not_allowed)
    else if not (is_some (find_app_locked s app_id))
    then (s, failure 404 "APP_NOT_FOUND" "app not found")
    else save_then env (new_key (sdk_key_view key) (sdk_secret env)) (
        audit_locked env 872 admin_id "sdk_key.rotate" "app" app_id r
          (some (("key_prefix", text key.key_prefix) ∷ [])) (rotate_keys env app_id s))
