-- ===== src/Integrity/ReportChecks.antt =====
-- The checks of evaluateIntegrityLocked (internal/licensecore/server.go) of the client's own report, each with
-- the line of the risk event.
use license_guard.Base.{◌+◌, ◌*◌, List, [], ◌∷◌, true, false, none, some, length}
use license_guard.Types.{text, texts}
use license_guard.Integrity.Checks.{
  Check, Client, db_encryption_status_failed, business_integrity_failed, is_false, is_not_empty,
}

-- The client found the business manifest's signature invalid.
abbrev pub manifest_signature_invalid : Client → Check
manifest_signature_invalid c = record {
  holds = is_false c.integrity.business_manifest_signature_valid;
  line = 1801;
  points = 90;
  denies = true;
  actions = "deny" ∷ [];
  event_type = "business_manifest_signature_invalid";
  severity = "high";
  action = "deny";
  summary = "业务 manifest 签名无效";
  metadata = some (("business_manifest_sha256", text c.integrity.business_manifest_sha256) ∷ []);
}

-- The client's own check of its business integrity failed.
abbrev pub self_check_failed : Client → Check
self_check_failed c = record {
  holds = business_integrity_failed c.integrity.business_integrity_status;
  line = 1810;
  points = 85;
  denies = true;
  actions = "deny" ∷ [];
  event_type = "business_integrity_failed";
  severity = "high";
  action = "deny";
  summary = "业务完整性自检失败";
  metadata = some (
      ("status", text c.integrity.business_integrity_status)
      ∷ ("errors", texts c.integrity.business_integrity_errors)
      ∷ []);
}

-- The local database is not encrypted, or its key cannot be read.
abbrev pub db_encryption_failed : Client → Check
db_encryption_failed c = record {
  holds = db_encryption_status_failed c.integrity.db_encryption_status;
  line = 1819;
  points = 85;
  denies = true;
  actions = "deny" ∷ [];
  event_type = "db_encryption_failed";
  severity = "high";
  action = "deny";
  summary = "本地 DB 加密或密钥读取失败";
  metadata = some (
      ("status", text c.integrity.db_encryption_status)
      ∷ ("errors", texts c.integrity.db_encryption_errors)
      ∷ []);
}

-- A debugger is attached.
abbrev pub debugger : Client → Check
debugger c = record {
  holds = c.integrity.debugger_detected;
  line = 1827;
  points = 40;
  denies = false;
  actions = "shorten_token_ttl" ∷ [];
  event_type = "debugger_detected";
  severity = "medium";
  action = "challenge";
  summary = "检测到调试器";
  metadata = none;
}

-- Suspicious modules are loaded.
abbrev pub suspicious_module : Client → Check
suspicious_module c = record {
  holds = is_not_empty c.integrity.suspicious_modules;
  line = 1832;
  points = 20 + length c.integrity.suspicious_modules * 8;
  denies = false;
  actions = "review" ∷ [];
  event_type = "suspicious_module_loaded";
  severity = "medium";
  action = "review";
  summary = "检测到可疑模块";
  metadata = some (("modules", texts c.integrity.suspicious_modules) ∷ []);
}

-- The client runs in a virtual machine.
abbrev pub vm_indicator : Client → Check
vm_indicator c = record {
  holds = is_not_empty c.integrity.vm_indicators;
  line = 1837;
  points = 12;
  denies = false;
  actions = "log" ∷ [];
  event_type = "vm_indicator";
  severity = "low";
  action = "allow";
  summary = "检测到虚拟化环境信号";
  metadata = some (("indicators", texts c.integrity.vm_indicators) ∷ []);
}

-- The checks of what the client reports of itself.
unfoldable pub report_checks : Client → List Check
report_checks c =
    manifest_signature_invalid c
    ∷ self_check_failed c
    ∷ db_encryption_failed c
    ∷ debugger c
    ∷ suspicious_module c
    ∷ vm_indicator c
    ∷ []
