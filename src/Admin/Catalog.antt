-- ===== src/Admin/Catalog.antt =====
-- What administrators add to the catalog (internal/licensecore/server.go): licenses (handleLicenses), releases (the
-- release routes of handleAppDetail), and capability policies (handleCapabilityPolicies,
-- handleVisionFlowCapabilityDefaults), each on a decoded body.
use license_guard.Base.{
  ◌+◌, ◌*◌, ℤ, pos, pos_part, leb, leb_ℤ, String, List, [], ◌∷◌, ◌++◌, Bool, false, ◌&&◌, ◌||◌, not,
  Option, none, some, if◌then◌else◌, is_empty, is_some, ◌==◌, concat, join, length, utf8, to_upper,
  trim_space, first_chars, find_first, update_first,
}
use license_guard.Types.{AppRelease, License, SystemSettings, Time, second, text}
use license_guard.Server.{Server, Env, Request, new_id, hash_string}
use license_guard.Server.Find.{find_app_locked}
use license_guard.Release.{clamp_percent}
use license_guard.Verification.Grant.{settings_locked}
use license_guard.Audit.{audit_locked}
use license_guard.Admin.{AdminReply, failure, new_license, release, save_then, or_old}

-- generateLicenseKey
unfoldable pub generate_license_key : Env → String
generate_license_key env = concat (
    "LG-"
    ∷ to_upper (first_chars 4 (env.random_part 0))
    ∷ "-"
    ∷ to_upper (first_chars 4 (env.random_part 1))
    ∷ "-"
    ∷ to_upper (first_chars 4 (env.random_part 2))
    ∷ [])

-- licensePrefix
unfoldable pub license_prefix : String → String
license_prefix key = if leb (length (utf8 key)) 12 then key else first_chars 12 key

-- The body of a request for a license.
pub record LicenseRequest : Type 0 where
  pub app_id : String
  pub plan_name : String
  pub owner_ref : String
  pub max_devices : ℤ
  pub expires_at : String
  pub entitlements : List String

-- `if s == "" { s = fallback }`
abbrev pub text_or : String → String → String
text_or s fallback = if is_empty s then fallback else s

abbrev pub default_entitlements : List String → List String
default_entitlements [] = "feature.pro" ∷ "export.enabled" ∷ []
default_entitlements (e ∷ es) = e ∷ es

abbrev pub license_expiry : Env → SystemSettings → String → Option Time
license_expiry env settings date =
    if is_empty date
    then some (env.time 917 + pos_part settings.default_license_days * 24 * 3600 * second)
    else env.parse_date date

-- The license that a request is given.
unfoldable pub made_license : Env → SystemSettings → LicenseRequest → Time → License
unfolding generate_license_key license_prefix new_id
made_license env settings req expires_at =
    let key = generate_license_key env in
    record {
      id = new_id env 929 "lic";
      license_key_hash = hash_string env key;
      license_key_prefix = license_prefix key;
      app_id = text_or req.app_id "app_nax_desktop_prod";
      plan_name = text_or req.plan_name "Pro";
      owner_type = "user";
      owner_ref = req.owner_ref;
      max_devices =
          if leb_ℤ req.max_devices (pos 0) then settings.default_max_devices else req.max_devices;
      entitlements = default_entitlements req.entitlements;
      expires_at = expires_at;
      status = "active";
      created_at = env.time 927;
      updated_at = env.time 927;
    }

unfoldable pub store_license : Env → Server → Request → String → License → Server × AdminReply
unfolding save_then generate_license_key
store_license env s r admin_id lic =
    if not (is_some (find_app_locked s lic.app_id))
    then (s, failure 404 "APP_NOT_FOUND" "app not found")
    else save_then env (new_license lic (generate_license_key env)) (
        audit_locked env 951 admin_id "license.create" "license" lic.id r
          (some (("app_id", text lic.app_id) ∷ []))
          (record s {
            contents = record s.contents { licenses = s.contents.licenses ++ lic ∷ [] };
          }))

-- handleLicenses with POST. The settings are read in a critical section of their own: `others` is what other
-- requests do to the server before the second one.
unfoldable pub create_license :
    Env → (Server → Server) → Server → Request → String → LicenseRequest → Server × AdminReply
unfolding made_license store_license
create_license env others s r admin_id req =
    let settings = settings_locked env s in
    elim (license_expiry env settings req.expires_at) [
      | none ↦ (others s, failure 400 "INVALID_EXPIRES_AT" "expires_at must be YYYY-MM-DD")
      | some expires_at ↦
          store_license env (others s) r admin_id (made_license env settings req expires_at)
    ]

-- findReleaseByIDLocked
abbrev pub is_release_id : String → String → AppRelease → Bool
is_release_id app_id id x = x.app_id == app_id && x.id == id

unfoldable pub find_release_by_id_locked : Server → String → String → Option AppRelease
find_release_by_id_locked s app_id id = find_first (is_release_id app_id id) s.contents.releases

-- missingReleaseIntegrityFields
abbrev pub blank_names : List (String × String) → List String
blank_names [] = []
blank_names ((name, value) ∷ fields) =
    let rest = blank_names fields in if is_empty (trim_space value) then name ∷ rest else rest

unfoldable pub missing_release_integrity_fields : AppRelease → List String
missing_release_integrity_fields x =
    (if leb_ℤ x.build_number (pos 0) then "build_number" ∷ [] else [])
    ++ blank_names (
        ("main_binary_hash", x.main_binary_hash)
        ∷ ("signer_thumbprint", x.signer_thumbprint)
        ∷ ("package_sha256", x.package_sha256)
        ∷ ("business_manifest_sha256", x.business_manifest_sha256)
        ∷ ("protected_db_schema_hash", x.protected_db_schema_hash)
        ∷ ("protected_db_tables_hash", x.protected_db_tables_hash)
        ∷ ("assets_manifest_sha256", x.assets_manifest_sha256)
        ∷ ("workflow_manifest_sha256", x.workflow_manifest_sha256)
        ∷ ("download_url", x.download_url)
        ∷ [])

-- `len(missing) > 0`, where the check is asked for
abbrev pub is_refused : Bool → AppRelease → Bool
is_refused asked x = elim (missing_release_integrity_fields x) [ [] ↦ false | m ∷ ms ↦ asked ]

abbrev pub fields_missing : AppRelease → AdminReply
fields_missing x =
    failure 400 "RELEASE_FIELDS_MISSING"
      (concat ("missing release fields: " ∷ join (missing_release_integrity_fields x) ", " ∷ []))

-- The release that a request creates.
unfoldable pub new_release : Env → String → AppRelease → AppRelease
unfolding new_id
new_release env app_id req = record req {
  id = new_id env 528 "rel";
  app_id = app_id;
  channel = text_or req.channel "production";
  status = text_or req.status "active";
  rollout_percent = clamp_percent (
      if leb_ℤ req.rollout_percent (pos 0) && leb_ℤ (pos 0) req.rollout_percent
      then pos 100
      else req.rollout_percent);
  created_at = env.time 540;
}

-- handleAppDetail, POST of a release
unfoldable pub create_release :
    Env → Server → Request → String → String → AppRelease → Bool → Server × AdminReply
unfolding new_release save_then
create_release env s r admin_id app_id req validate =
    let x = new_release env app_id req in
    if is_empty req.version || is_empty req.platform
    then (s, failure 400 "INVALID_REQUEST" "version and platform are required")
    else if is_refused validate x
    then (s, fields_missing x)
    else if not (is_some (find_app_locked s app_id))
    then (s, failure 404 "APP_NOT_FOUND" "app not found")
    else save_then env (release x) (
        audit_locked env 556 admin_id "release.create" "app" app_id r
          (some (("version", text x.version) ∷ []))
          (record s { contents = record s.contents { releases = s.contents.releases ++ x ∷ [] } }))

-- The body of a change of a release.
pub record ReleasePatch : Type 0 where
  pub status : Option String
  pub mandatory : Option Bool
  pub rollout_percent : Option ℤ
  pub download_url : Option String
  pub package_sha256 : Option String
  pub release_notes : Option String
  pub signer_thumbprint : Option String
  pub main_binary_hash : Option String
  pub min_supported_version : Option String
  pub resource_manifest_hash : Option String
  pub business_manifest_sha256 : Option String
  pub protected_db_schema_hash : Option String
  pub protected_db_tables_hash : Option String
  pub assets_manifest_sha256 : Option String
  pub workflow_manifest_sha256 : Option String
  -- whether it is there and true
  pub validate_integrity_fields : Bool

unfoldable pub patch_release : ReleasePatch → AppRelease → AppRelease
patch_release req old = record old {
  status = or_old req.status old.status;
  mandatory = or_old req.mandatory old.mandatory;
  rollout_percent = elim req.rollout_percent [
    | none ↦ old.rollout_percent
    | some n ↦ clamp_percent n
  ];
  download_url = or_old req.download_url old.download_url;
  package_sha256 = or_old req.package_sha256 old.package_sha256;
  release_notes = or_old req.release_notes old.release_notes;
  signer_thumbprint = or_old req.signer_thumbprint old.signer_thumbprint;
  main_binary_hash = or_old req.main_binary_hash old.main_binary_hash;
  min_supported_version = or_old req.min_supported_version old.min_supported_version;
  resource_manifest_hash = or_old req.resource_manifest_hash old.resource_manifest_hash;
  business_manifest_sha256 = or_old req.business_manifest_sha256 old.business_manifest_sha256;
  protected_db_schema_hash = or_old req.protected_db_schema_hash old.protected_db_schema_hash;
  protected_db_tables_hash = or_old req.protected_db_tables_hash old.protected_db_tables_hash;
  assets_manifest_sha256 = or_old req.assets_manifest_sha256 old.assets_manifest_sha256;
  workflow_manifest_sha256 = or_old req.workflow_manifest_sha256 old.workflow_manifest_sha256;
}

unfoldable pub change_release : String → String → AppRelease → Server → Server
change_release app_id id x s = record s {
  contents = record s.contents {
    releases = update_first (is_release_id app_id id) (λ old. x) s.contents.releases;
  };
}

-- handleAppDetail, PATCH of a release
unfoldable pub update_release :
    Env → Server → Request → String → String → String → ReleasePatch → Server × AdminReply
unfolding patch_release change_release save_then
update_release env s r admin_id app_id id req = elim (find_release_by_id_locked s app_id id) [
  | none ↦ (s, failure 404 "RELEASE_NOT_FOUND" "release not found")
  | some old ↦
      let x = patch_release req old in
      let stored = save_then env (release x) (
        audit_locked env 652 admin_id "release.update" "release" id r
          (some (("app_id", text app_id) ∷ [])) (change_release app_id id x s)) in
      if is_refused req.validate_integrity_fields x then (s, fields_missing x) else stored
]
