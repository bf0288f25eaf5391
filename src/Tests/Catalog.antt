-- ===== src/Tests/Catalog.antt =====
-- The theorems on what administrators add (internal/licensecore/server.go) and on migrations
-- (internal/licensecore/migration.go) at concrete data.
use license_guard.Settings.{normalize_system_settings}
use license_guard.Server.Find.{find_app_locked, find_license_by_key_locked}
use license_guard.Verification.Grant.{settings_locked}
use license_guard.Base.{find_first, to_upper, concat, true, ◌≡◌, refl}
use license_guard.Base.{◌+◌, ◌*◌}
use license_guard.Types.{second}
use license_guard.Base.{pos, String, [], ◌∷◌, none, some, ◌≢◌, ◌≡◌, refl, first_chars}
use license_guard.Types.{License}
use license_guard.Server.{Server, hash_string}
use license_guard.Admin.{new_license}
use license_guard.Admin.Catalog.{LicenseRequest, made_license, create_license}
use license_guard.Admin.Apps.{new_sdk_key, sdk_key_view}
use license_guard.Types.{SdkKey, SdkKeyView}
use license_guard.Admin.Issue.{create_license-found}
use license_guard.Migration.{
  CodePoints, split_sql_statements, trim_white, trim_start, trim_end, is_white,
}
use license_guard.Migration.Solid.{solid, joined}
use license_guard.Migration.Split.{split_sql_statements-solid}
use license_guard.Verification.Grant.{settings_locked}
use license_guard.Tests.Fixtures.{env, server, contents, request, now}

abbrev license_request : LicenseRequest
license_request = record {
  app_id = "visionflow";
  plan_name = "";
  owner_ref = "owner";
  max_devices = pos 0;
  expires_at = "";
  entitlements = [];
}

abbrev made : License
made =
    made_license env (settings_locked env server) license_request (now + 365 * 24 * 3600 * second)

created :
    (create_license env (λ s. s) server request "admin_1" license_request).1
    ≡ new_license made "LG-ABCD-ABCD-ABCD"
unfolding normalize_system_settings to_upper concat find_first find_app_locked settings_locked
    first_chars create_license
created = refl

unknown_key : find_license_by_key_locked env server "LG-ABCD-ABCD-ABCD" ≡ none
unfolding find_first find_license_by_key_locked
unknown_key = refl

create_license-found_example :
    let s' = (create_license env (λ s. s) server request "admin_1" license_request).0 in
    (find_license_by_key_locked env s' "LG-ABCD-ABCD-ABCD" ≡ some made)
    × (made.status ≡ "active")
    × ((other : String)
        → hash_string env other ≢ hash_string env "LG-ABCD-ABCD-ABCD"
        → find_license_by_key_locked env s' other ≡ find_license_by_key_locked env server other)
create_license-found_example =
    create_license-found env (λ s. s) server request "admin_1" license_request made
      "LG-ABCD-ABCD-ABCD" created unknown_key

-- SDK keys

abbrev key : SdkKey
key = record {
  id = "sdk_1";
  app_id = "visionflow";
  public_key = "key";
  secret_hash = "hash";
  key_prefix = "lgsk_";
  status = "active";
  last_used_at = none;
  created_at = 0;
  rotated_at = none;
}

abbrev key_server : Server
key_server = record server {
  contents = record contents {
    sdk_keys = key ∷ record key { id = "sdk_2"; app_id = "other" } ∷ [];
  };
}

abbrev view : SdkKeyView
view = sdk_key_view (new_sdk_key env "visionflow" "key" now true)

-- a;'b;' --;
abbrev sql : CodePoints
sql = 97 ∷ 59 ∷ 39 ∷ 98 ∷ 59 ∷ 39 ∷ 32 ∷ 45 ∷ 45 ∷ 59 ∷ 10 ∷ []

split_sql : split_sql_statements sql ≡ (97 ∷ []) ∷ (39 ∷ 98 ∷ 59 ∷ 39 ∷ 32 ∷ 45 ∷ 45 ∷ 59 ∷ []) ∷ []
unfolding split_sql_statements trim_white trim_start trim_end is_white
split_sql = refl

split_sql_statements-solid_example : solid (joined (split_sql_statements sql)) ≡ solid sql
split_sql_statements-solid_example = split_sql_statements-solid sql
