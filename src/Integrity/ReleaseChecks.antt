-- ===== src/Integrity/ReleaseChecks.antt =====
-- The checks of evaluateIntegrityLocked (internal/licensecore/server.go) against the registered release, each
-- with the line of its report.
use license_guard.Base.{List, [], ◌∷◌, true, false, some, ◌==◌}
use license_guard.Types.{AppRelease, text}
use license_guard.Integrity.Checks.{
  Check, Client, release_business_manifest_sha256, differs, both_differ, mismatch, field_mismatch,
  version_metadata,
}

-- No release is registered under the client's version.
abbrev pub unknown_version : Client → Check
unknown_version c = record {
  holds = true;
  line = 1717;
  points = 20;
  denies = false;
  actions = "review" ∷ [];
  event_type = "unknown_app_version";
  severity = "medium";
  action = "review";
  summary = "客户端版本未在后台登记";
  metadata = version_metadata c;
}

-- The release is blocked.
abbrev pub version_blocked : Client → AppRelease → Check
version_blocked c r = record {
  holds = r.status == "blocked";
  line = 1723;
  points = 85;
  denies = true;
  actions = "deny" ∷ [];
  event_type = "app_version_blocked";
  severity = "high";
  action = "deny";
  summary = "当前版本已被后台阻止";
  metadata = version_metadata c;
}

-- The release is deprecated.
abbrev pub version_deprecated : Client → AppRelease → Check
version_deprecated c r = record {
  holds = r.status == "deprecated";
  line = 1728;
  points = 35;
  denies = false;
  actions = "shorten_token_ttl" ∷ "update_recommended" ∷ [];
  event_type = "app_version_deprecated";
  severity = "medium";
  action = "challenge";
  summary = "当前版本已标记为过时";
  metadata = version_metadata c;
}

-- The main binary is not the release's.
abbrev pub binary_mismatch : Client → AppRelease → Check
binary_mismatch c r = record {
  holds = both_differ r.main_binary_hash c.integrity.main_binary_hash;
  line = 1734;
  points = 90;
  denies = true;
  actions = "deny" ∷ [];
  event_type = "binary_hash_mismatch";
  severity = "high";
  action = "deny";
  summary = "主程序 hash 与发布版本不匹配";
  metadata =
      some (
        ("expected", text r.main_binary_hash) ∷ ("actual", text c.integrity.main_binary_hash) ∷ []);
}

-- The signer is not the release's.
abbrev pub signer_mismatch : Client → AppRelease → Check
signer_mismatch c r = record {
  holds = both_differ r.signer_thumbprint c.integrity.signer_thumbprint;
  line = 1740;
  points = 80;
  denies = true;
  actions = "deny" ∷ [];
  event_type = "signature_mismatch";
  severity = "high";
  action = "deny";
  summary = "签名证书指纹不匹配";
  metadata = some (
      ("expected", text r.signer_thumbprint) ∷ ("actual", text c.integrity.signer_thumbprint) ∷ []);
}

-- The business manifest is not the release's.
abbrev pub business_manifest_mismatch : Client → AppRelease → Check
business_manifest_mismatch c r = record {
  holds = differs (release_business_manifest_sha256 r) c.integrity.business_manifest_sha256;
  line = 1747;
  points = 90;
  denies = true;
  actions = "deny" ∷ [];
  event_type = "business_manifest_mismatch";
  severity = "high";
  action = "deny";
  summary = "业务 manifest hash 与发布版本不匹配";
  metadata =
      mismatch (release_business_manifest_sha256 r) c.integrity.business_manifest_sha256 r.id;
}

-- The protected tables' schema is not the release's.
abbrev pub db_schema_mismatch : Client → AppRelease → Check
db_schema_mismatch c r = record {
  holds = differs r.protected_db_schema_hash c.integrity.protected_db_schema_hash;
  line = 1757;
  points = 85;
  denies = true;
  actions = "deny" ∷ [];
  event_type = "protected_db_definition_mismatch";
  severity = "high";
  action = "deny";
  summary = "受保护 DB schema hash 与发布版本不匹配";
  metadata =
      field_mismatch "protected_db_schema_hash" r.protected_db_schema_hash
        c.integrity.protected_db_schema_hash r.id;
}

-- The protected tables are not the release's.
abbrev pub db_tables_mismatch : Client → AppRelease → Check
db_tables_mismatch c r = record {
  holds = differs r.protected_db_tables_hash c.integrity.protected_db_tables_hash;
  line = 1768;
  points = 85;
  denies = true;
  actions = "deny" ∷ [];
  event_type = "protected_db_definition_mismatch";
  severity = "high";
  action = "deny";
  summary = "受保护 DB tables hash 与发布版本不匹配";
  metadata =
      field_mismatch "protected_db_tables_hash" r.protected_db_tables_hash
        c.integrity.protected_db_tables_hash r.id;
}

-- The assets are not the release's.
abbrev pub assets_mismatch : Client → AppRelease → Check
assets_mismatch c r = record {
  holds = differs r.assets_manifest_sha256 c.integrity.assets_manifest_sha256;
  line = 1779;
  points = 85;
  denies = true;
  actions = "deny" ∷ [];
  event_type = "asset_manifest_mismatch";
  severity = "high";
  action = "deny";
  summary = "assets manifest hash 与发布版本不匹配";
  metadata = mismatch r.assets_manifest_sha256 c.integrity.assets_manifest_sha256 r.id;
}

-- The workflows are not the release's.
abbrev pub workflow_mismatch : Client → AppRelease → Check
workflow_mismatch c r = record {
  holds = differs r.workflow_manifest_sha256 c.integrity.workflow_manifest_sha256;
  line = 1789;
  points = 85;
  denies = true;
  actions = "deny" ∷ [];
  event_type = "workflow_manifest_mismatch";
  severity = "high";
  action = "deny";
  summary = "workflow manifest hash 与发布版本不匹配";
  metadata = mismatch r.workflow_manifest_sha256 c.integrity.workflow_manifest_sha256 r.id;
}

-- The checks against the release that the client says it runs.
unfoldable pub release_checks : Client → AppRelease → List Check
release_checks c r =
    version_blocked c r
    ∷ version_deprecated c r
    ∷ binary_mismatch c r
    ∷ signer_mismatch c r
    ∷ business_manifest_mismatch c r
    ∷ db_schema_mismatch c r
    ∷ db_tables_mismatch c r
    ∷ assets_mismatch c r
    ∷ workflow_mismatch c r
    ∷ []
