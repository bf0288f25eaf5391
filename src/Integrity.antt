-- ===== src/Integrity.antt =====
-- The risk of a client (internal/licensecore/server.go: evaluateIntegrityLocked). Each `if` that reports a
-- risk event is a `Check`, and the function makes its checks in the order of the source.
pub mod Checks
pub mod ReleaseChecks
pub mod ReportChecks
pub mod Verdict
pub mod Deny
pub mod Trail
use license_guard.Base.{
  ℕ, ◌+◌, ◌*◌, ℤ, pos, ltb, leb, String, List, [], ◌∷◌, ◌++◌, Bool, true, false, ◌||◌, ◌&&◌, not,
  Option, none, some, Dict, if◌then◌else◌, is_empty, ◌==◌, one_of, length,
}
use license_guard.Types.{AppRelease, IntegrityRequest, IntegrityReport, RiskResult, Value}
use license_guard.Server.{Server, Env, add_risk_event_locked, new_id}
use license_guard.Release.{find_release_locked}
use Checks.{Check, Client}
use ReleaseChecks.{release_checks, unknown_version}
use ReportChecks.{report_checks}

-- The variables of the function: the server with its risk events, `score`, `deny` and `actions`.
pub record Assessment : Type 0 where
  pub server : Server
  pub score : ℕ
  pub deny : Bool
  pub actions : List String

-- The body of one `if`.
unfoldable pub apply_check : Env → Client → Check → Assessment → Assessment
apply_check env c k a =
    if k.holds
    then record {
      server =
          add_risk_event_locked env k.line c.app_id c.device_id c.license_id k.event_type k.severity
            k.action k.summary k.metadata a.server;
      score = a.score + k.points;
      deny = a.deny || k.denies;
      actions = a.actions ++ k.actions;
    }
    else a

unfoldable pub apply_checks : Env → Client → List Check → Assessment → Assessment
unfolding apply_check
apply_checks env c [] a = a
apply_checks env c (k ∷ ks) a = apply_checks env c ks (apply_check env c k a)

-- uniqueStrings
unfoldable pub unique_from : List String → List String → List String
unique_from seen [] = []
unique_from seen (x ∷ xs) =
    let rest = unique_from (x ∷ seen) xs in
    let same = unique_from seen xs in if one_of x seen then same else x ∷ rest

unfoldable pub unique_strings : List String → List String
unfolding unique_from
unique_strings items = unique_from [] items

-- The release that the client says it runs.
unfoldable pub exact_release : Server → Client → Option AppRelease
exact_release s c =
    if is_empty c.integrity.app_version
    then none
    else find_release_locked s c.app_id c.platform c.integrity.app_version

-- All checks that the function makes, given that release.
unfoldable pub all_checks : Client → Option AppRelease → List Check
unfolding release_checks report_checks
all_checks c none =
    (if is_empty c.integrity.app_version then [] else unknown_version c ∷ []) ++ report_checks c
all_checks c (some r) = release_checks c r ++ report_checks c

-- `if score > 100 { score = 100 }`
abbrev pub cap_score : ℕ → ℕ
cap_score n = if ltb 100 n then 100 else n

abbrev pub risk_level : ℕ → String
risk_level score = if leb 80 score then "high" else if leb 45 score then "medium" else "low"

abbrev pub no_actions : List String → Bool
no_actions [] = true
no_actions (x ∷ xs) = false

-- The end of the function: the level and the actions.
unfoldable pub risk_result : Assessment → RiskResult
unfolding unique_strings
risk_result a =
    let score = cap_score a.score in
    let actions = if no_actions a.actions then "allow" ∷ [] else a.actions in
    let level = risk_level score in
    record {
      level = level;
      score = pos score;
      actions =
          unique_strings (
            if level == "high" && not a.deny then actions ++ "shorten_token_ttl" ∷ [] else actions);
    }

-- What evaluateIntegrityLocked returns, with the server it leaves.
pub record Evaluation : Type 0 where
  pub server : Server
  pub risk : RiskResult
  pub release : Option AppRelease
  pub deny : Bool

-- The assessment before the first check.
abbrev pub unassessed : Server → Assessment
unassessed s = record { server = s; score = 10; deny = false; actions = [] }

-- evaluateIntegrityLocked
unfoldable pub evaluate_integrity_locked : Env → Server → Client → Evaluation
unfolding apply_checks exact_release all_checks risk_result
evaluate_integrity_locked env s c =
    let release = exact_release s c in
    let a = apply_checks env c (all_checks c release) (unassessed s) in
    record { server = a.server; risk = risk_result a; release = release; deny = a.deny }

-- newIntegrityReport, called at a line
unfoldable pub new_integrity_report :
    Env → ℕ → String → String → String → IntegrityRequest → Option AppRelease → IntegrityReport
unfolding new_id
new_integrity_report env line app_id device_id platform integrity release = record {
  id = new_id env line "ir";
  app_id = app_id;
  device_id = device_id;
  release_id = elim release [ none ↦ "" | some r ↦ r.id ];
  verify_session_id = "";
  platform = platform;
  app_version = integrity.app_version;
  main_binary_hash = integrity.main_binary_hash;
  signer_thumbprint = integrity.signer_thumbprint;
  business_manifest_sha256 = integrity.business_manifest_sha256;
  business_manifest_signature_valid = integrity.business_manifest_signature_valid;
  protected_db_schema_hash = integrity.protected_db_schema_hash;
  protected_db_tables_hash = integrity.protected_db_tables_hash;
  assets_manifest_sha256 = integrity.assets_manifest_sha256;
  workflow_manifest_sha256 = integrity.workflow_manifest_sha256;
  business_integrity_status = integrity.business_integrity_status;
  business_integrity_errors = integrity.business_integrity_errors;
  db_encryption_status = integrity.db_encryption_status;
  db_encryption_errors = integrity.db_encryption_errors;
  debugger_detected = integrity.debugger_detected;
  suspicious_modules = integrity.suspicious_modules;
  vm_indicators = integrity.vm_indicators;
  created_at = env.time line;
}
