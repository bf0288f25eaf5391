-- ===== src/Audit.antt =====
-- The audit log of internal/licensecore/server.go: auditLocked, and the redaction of what it records.
pub mod Redaction
use license_guard.Base.{
  ℕ, String, List, [], ◌∷◌, ◌++◌, Bool, true, false, ◌||◌, Option, none, some, Dict, any, contains,
  if◌then◌else◌, is_empty, split_on, trim_space, to_lower, ◌==◌,
}
use license_guard.Types.{
  AuditLog, Value, null, boolean, integer, number, text, texts, array, object, Values, nil, cons,
  Fields, end, field,
}
use license_guard.Server.{Server, Env, Request, new_id}

-- The markers of isSensitiveAuditKey.
abbrev markers : List String
markers =
    "password" ∷ "secret" ∷ "token" ∷ "private_key" ∷ "signing_key" ∷ "database_url" ∷ "license_key"
    ∷ []

-- isSensitiveAuditKey
unfoldable pub is_sensitive_audit_key : String → Bool
is_sensitive_audit_key key =
    let name = to_lower (trim_space key) in
    if name == "license_key_prefix" || name == "key_prefix"
    then false
    else any (λ marker. contains name marker) markers

abbrev pub redacted : Value
redacted = text "[redacted]"

-- sanitizeAuditValue, and sanitizeAuditMetadata on a map that is a value
unfoldable mutual
  pub sanitize_audit_value : String → Value → Value
  sanitize_audit_value key (object fields) =
      let out = sanitize_fields fields in
      if is_sensitive_audit_key key then redacted else object out
  sanitize_audit_value key (array items) =
      let out = sanitize_values items in if is_sensitive_audit_key key then redacted else array out
  sanitize_audit_value key value = if is_sensitive_audit_key key then redacted else value

  pub sanitize_values : Values → Values
  sanitize_values nil = nil
  sanitize_values (cons item items) = cons (sanitize_audit_value "" item) (sanitize_values items)

  pub sanitize_fields : Fields → Fields
  sanitize_fields end = end
  sanitize_fields (field key value fields) =
      field key (sanitize_audit_value key value) (sanitize_fields fields)

-- The loop of sanitizeAuditMetadata.
unfoldable pub sanitize_entries : Dict Value → Dict Value
sanitize_entries [] = []
sanitize_entries ((key, value) ∷ m) = (key, sanitize_audit_value key value) ∷ sanitize_entries m

-- sanitizeAuditMetadata
unfoldable pub sanitize_audit_metadata : Option (Dict Value) → Option (Dict Value)
unfolding sanitize_entries
sanitize_audit_metadata none = none
sanitize_audit_metadata (some m) = some (sanitize_entries m)

abbrev first_part : List String → String
first_part [] = ""
first_part (part ∷ parts) = part

-- clientIP
unfoldable pub client_ip : Env → Request → String
client_ip env r =
    if is_empty r.forwarded_for
    then (elim (env.split_host_port r.remote_addr) [ none ↦ r.remote_addr | some host ↦ host ])
    else trim_space (first_part (split_on b',' r.forwarded_for))

-- The entry that auditLocked adds, called at a line.
unfoldable pub audit_log :
    Env → ℕ → String → String → String → String → Request → Option (Dict Value) → AuditLog
unfolding new_id
audit_log env line admin_id action target_type target_id r metadata = record {
  id = new_id env line "audit";
  admin_id = admin_id;
  action = action;
  target_type = target_type;
  target_id = target_id;
  ip = client_ip env r;
  user_agent = r.user_agent;
  metadata = sanitize_audit_metadata metadata;
  created_at = env.time line;
}

-- auditLocked
unfoldable pub audit_locked :
    Env → ℕ → String → String → String → String → Request → Option (Dict Value) → Server → Server
unfolding audit_log
audit_locked env line admin_id action target_type target_id r metadata s = record s {
  contents = record s.contents {
    audit_logs =
        s.contents.audit_logs
        ++ audit_log env line admin_id action target_type target_id r metadata ∷ [];
  };
}
