-- ===== src/Tests/Admins.antt =====
-- The theorems on administrators (internal/licensecore/server.go) at concrete data.
use license_guard.Verification.{process_client_verification}
use license_guard.Token.{verify_license_token}
use license_guard.RateLimit.{is_rate_limited_locked}
use license_guard.Server.Find.{find_license_by_id_locked}
use license_guard.Base.{
  utf8, find_first, lookup, equal_fold, trim_space, concat, one_of, split_on, true, false, ◌≡◌,
  refl,
}
use license_guard.Verification.Monad.{allows}
use license_guard.Base.{◌≡◌, refl, eq_iff, if◌then◌else◌, ◌++◌}
use license_guard.Types.{text}
use license_guard.Token.{valid}
use license_guard.Tests.Codec.{example_claims}
use license_guard.Base.{◌*◌, ◌+◌, [], ◌∷◌, true, false, some, ◌≢◌, trim_prefix}
use license_guard.Types.{Admin, second, after}
use license_guard.Server.{Server, Request}
use license_guard.Session.{decided, handle_capability_check}
use license_guard.Audit.{audit_locked}
use license_guard.Audit.Redaction.{MetadataRedacted, MetadataPublic, audit_locked-redacts}
use license_guard.Admin.{license as license_reply, act_on_license, handle_license_action}
use license_guard.Admin.Revocation.{handle_license_action-revokes}
use license_guard.Accounts.{
  logged_in, done, refused, admin as admin_auth, find_admin_by_account_locked,
  find_admin_by_id_locked, bearer_token, require_admin, handle_admin_login,
  handle_admin_password_change,
}
use license_guard.Accounts.Sessions.{
  IsLogin, handle_admin_password_change-sessions, handle_admin_login-session,
}
use license_guard.Verification.Monad.{allows}
use license_guard.Verification.Licensing.{ClientVerificationInput}
use license_guard.Tests.Fixtures.{env, server, contents, request, now, license, activation}
use license_guard.Tests.Sessions.{early_env, active_server, token, decision}
use license_guard.Types.{AuditLog}

abbrev admin_account : Admin
admin_account = record {
  id = "admin_1";
  account = "root";
  name = "Root";
  password_hash = "old password";
  status = "active";
  created_at = 0;
  updated_at = 0;
}

-- An administrator with two open sessions.
abbrev admin_server : Server
admin_server = record server {
  contents = record contents { admins = admin_account ∷ [] };
  admin_sessions =
      ("adm_1", record { admin_id = "admin_1"; expires_at = now + second })
      ∷ ("adm_2", record { admin_id = "admin_1"; expires_at = now + second })
      ∷ [];
}

abbrev other_request : Request
other_request = record request { authorization = "Bearer adm_2" }

-- Sessions

changed :
    (handle_admin_password_change env admin_server request "admin_1" "old password"
      "new password").1
    ≡ done
unfolding utf8 find_first find_admin_by_id_locked handle_admin_password_change
changed = refl

tokens_differ : bearer_token other_request ≢ bearer_token request
unfolding bearer_token trim_prefix
tokens_differ e = cc ((eq_iff "adm_2" "adm_1").1 e)

handle_admin_password_change-sessions_example :
    let s' =
      (handle_admin_password_change env admin_server request "admin_1" "old password"
        "new password").0 in
    ((require_admin env s' other_request).1 ≢ admin_auth "admin_1")
    × ((require_admin env s' request).1 ≡ (require_admin env admin_server request).1)
handle_admin_password_change-sessions_example =
    handle_admin_password_change-sessions env admin_server request "admin_1" "old password"
      "new password" changed env other_request tokens_differ

logged :
    (handle_admin_login env (λ s. s) admin_server request " Root " "old password").1
    ≡ logged_in "adm_rnd" (now + 12 * 3600 * second) admin_account
unfolding is_rate_limited_locked equal_fold trim_space concat find_first lookup
    find_admin_by_account_locked handle_admin_login
logged = refl

new_request : Request
new_request = record request { authorization = "Bearer adm_rnd" }

new_token : bearer_token new_request ≡ "adm_rnd"
unfolding bearer_token trim_prefix new_request
new_token = refl

handle_admin_login-session_example :
    IsLogin env admin_server request " Root " "old password" admin_account
    × ((require_admin env
          (handle_admin_login env (λ s. s) admin_server request " Root " "old password").0
          new_request).1
        ≡ (if after (env.time 337) (now + 12 * 3600 * second)
            then refused "invalid admin token"
            else admin_auth "admin_1"))
handle_admin_login-session_example =
    handle_admin_login-session env (λ s. s) admin_server request " Root " "old password" "adm_rnd"
      (now + 12 * 3600 * second) admin_account logged env new_request new_token

-- The audit log

audit_locked-redacts_example :
    (log : AuditLog) × (audit_locked env 319 "admin_1" "admin.login" "admin" "admin_1" request
        (some (("token", text "t") ∷ []))
        admin_server
      ≡ record admin_server {
        contents = record admin_server.contents {
          audit_logs = admin_server.contents.audit_logs ++ log ∷ [];
        };
      })
    × MetadataRedacted log.metadata
    × (MetadataPublic (some (("token", text "t") ∷ []))
        → log.metadata ≡ some (("token", text "t") ∷ []))
audit_locked-redacts_example =
    audit_locked-redacts env 319 "admin_1" "admin.login" "admin" "admin_1" request
      (some (("token", text "t") ∷ [])) admin_server

-- Licenses

revoked :
    (handle_license_action early_env active_server request "lic_1/revoke" "admin_1").1
    ≡ license_reply (act_on_license "revoke" (early_env.time 995) license)
unfolding one_of split_on find_first find_license_by_id_locked handle_license_action
revoked = refl

parts : split_on b'/' "lic_1/revoke" ≡ "lic_1" ∷ "revoke" ∷ []
unfolding split_on
parts = refl

abbrev token_request : ClientVerificationInput
token_request = record activation { license_key = ""; license_token = token }

names_license :
    verify_license_token early_env.crypto active_server.public_key (early_env.time 1569) token true
    ≡ valid example_claims
unfolding verify_license_token split_on
names_license = refl

handle_license_action-revokes_example :
    let s' = (handle_license_action early_env active_server request "lic_1/revoke" "admin_1").0 in
    ((handle_capability_check early_env s' "visionflow" token "render").1 ≢ decided decision)
    × (allows (process_client_verification early_env s' request token_request).1 ≡ false)
handle_license_action-revokes_example =
    handle_license_action-revokes early_env active_server request "lic_1/revoke" "lic_1" "admin_1"
      (act_on_license "revoke" (early_env.time 995) license) parts revoked token example_claims
      names_license refl "visionflow" "render" decision request token_request refl refl
