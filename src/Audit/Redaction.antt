-- ===== src/Audit/Redaction.antt =====
-- What the audit log keeps of the metadata (internal/licensecore/server.go, sanitizeAuditMetadata).
use license_guard.Base.{
  ℕ, String, [], ◌∷◌, ◌++◌, true, false, Option, none, some, Dict, to_lower, trim_space, contains,
  ◌≡◌, refl, ap, ap₂, arith, Bool-cases, inl, inr,
}
use license_guard.Types.{
  AuditLog, Value, null, boolean, integer, number, text, texts, array, object, Values, nil, cons,
  Fields, end, field,
}
use license_guard.Server.{Server, Env, Request}
use license_guard.Audit.{
  is_sensitive_audit_key, redacted, sanitize_audit_value, sanitize_values, sanitize_fields,
  sanitize_entries, sanitize_audit_metadata, audit_log, audit_locked,
}

-- No value under a sensitive key is left, at any depth.
mutual
  pub IsRedacted : Value → Type 0
  IsRedacted (object fields) = AreRedacted fields
  IsRedacted (array items) = AllRedacted items
  IsRedacted value = Unit

  pub AllRedacted : Values → Type 0
  AllRedacted nil = Unit
  AllRedacted (cons item items) = IsRedacted item × AllRedacted items

  pub AreRedacted : Fields → Type 0
  AreRedacted end = Unit
  AreRedacted (field key value fields) =
      (is_sensitive_audit_key key ≡ true → value ≡ redacted) × IsRedacted value × AreRedacted fields

-- A sensitive key's value is replaced.
sanitize-sensitive :
    (key : String) (value : Value)
    → is_sensitive_audit_key key ≡ true
    → sanitize_audit_value key value ≡ redacted
unfolding sanitize_audit_value
sanitize-sensitive key (object fields) h = rw h
sanitize-sensitive key (array items) h = rw h
sanitize-sensitive key null h = rw h
sanitize-sensitive key (boolean b) h = rw h
sanitize-sensitive key (integer z) h = rw h
sanitize-sensitive key (number t) h = rw h
sanitize-sensitive key (text t) h = rw h
sanitize-sensitive key (texts ts) h = rw h

mutual
  unfolding IsRedacted sanitize_audit_value

  sanitize_audit_value-IsRedacted :
      (key : String) (value : Value) → IsRedacted (sanitize_audit_value key value)
  sanitize_audit_value-IsRedacted key (object fields) =
      elim (Bool-cases (is_sensitive_audit_key key)) [
        | inl e ↦ rw e tt
        | inr e ↦ rw e (sanitize_fields-AreRedacted fields)
      ]
  sanitize_audit_value-IsRedacted key (array items) =
      elim (Bool-cases (is_sensitive_audit_key key)) [
        | inl e ↦ rw e tt
        | inr e ↦ rw e (sanitize_values-AllRedacted items)
      ]
  sanitize_audit_value-IsRedacted key null = ground arith
  sanitize_audit_value-IsRedacted key (boolean b) = ground arith
  sanitize_audit_value-IsRedacted key (integer z) = ground arith
  sanitize_audit_value-IsRedacted key (number t) = ground arith
  sanitize_audit_value-IsRedacted key (text t) = ground arith
  sanitize_audit_value-IsRedacted key (texts ts) = ground arith

  sanitize_values-AllRedacted : (items : Values) → AllRedacted (sanitize_values items)
  sanitize_values-AllRedacted nil = tt
  sanitize_values-AllRedacted (cons item items) =
      (sanitize_audit_value-IsRedacted "" item, sanitize_values-AllRedacted items)

  sanitize_fields-AreRedacted : (fields : Fields) → AreRedacted (sanitize_fields fields)
  sanitize_fields-AreRedacted end = tt
  sanitize_fields-AreRedacted (field key value fields) = (
    sanitize-sensitive key value,
    sanitize_audit_value-IsRedacted key value,
    sanitize_fields-AreRedacted fields,
  )

-- No key in the value is sensitive, at any depth.
mutual
  pub IsPublic : Value → Type 0
  IsPublic (object fields) = ArePublic fields
  IsPublic (array items) = AllPublic items
  IsPublic value = Unit

  pub AllPublic : Values → Type 0
  AllPublic nil = Unit
  AllPublic (cons item items) = IsPublic item × AllPublic items

  pub ArePublic : Fields → Type 0
  ArePublic end = Unit
  ArePublic (field key value fields) =
      (is_sensitive_audit_key key ≡ false) × IsPublic value × ArePublic fields

empty_key : is_sensitive_audit_key "" ≡ false
unfolding is_sensitive_audit_key to_lower trim_space contains
empty_key = refl

mutual
  unfolding IsPublic sanitize_audit_value

  sanitize-public :
      (key : String) (value : Value)
      → is_sensitive_audit_key key ≡ false
      → IsPublic value
      → sanitize_audit_value key value ≡ value
  sanitize-public key (object fields) h p = rw h (ap object (sanitize_fields-public fields p))
  sanitize-public key (array items) h p = rw h (ap array (sanitize_values-public items p))
  sanitize-public key null h p = rw h
  sanitize-public key (boolean b) h p = rw h
  sanitize-public key (integer z) h p = rw h
  sanitize-public key (number t) h p = rw h
  sanitize-public key (text t) h p = rw h
  sanitize-public key (texts ts) h p = rw h

  sanitize_values-public : (items : Values) → AllPublic items → sanitize_values items ≡ items
  sanitize_values-public nil p = refl
  sanitize_values-public (cons item items) p =
      ap₂ cons (sanitize-public "" item empty_key p.0) (sanitize_values-public items p.1)

  sanitize_fields-public : (fields : Fields) → ArePublic fields → sanitize_fields fields ≡ fields
  sanitize_fields-public end p = refl
  sanitize_fields-public (field key value fields) p =
      ap₂ (field key) (sanitize-public key value p.0 p.1) (sanitize_fields-public fields p.2)

abbrev EntriesRedacted : Dict Value → Type 0
EntriesRedacted [] = Unit
EntriesRedacted ((key, value) ∷ m) =
    (is_sensitive_audit_key key ≡ true → value ≡ redacted) × IsRedacted value × EntriesRedacted m

abbrev EntriesPublic : Dict Value → Type 0
EntriesPublic [] = Unit
EntriesPublic ((key, value) ∷ m) =
    (is_sensitive_audit_key key ≡ false) × IsPublic value × EntriesPublic m

abbrev pub MetadataRedacted : Option (Dict Value) → Type 0
MetadataRedacted none = Unit
MetadataRedacted (some m) = EntriesRedacted m

abbrev pub MetadataPublic : Option (Dict Value) → Type 0
MetadataPublic none = Unit
MetadataPublic (some m) = EntriesPublic m

sanitize_entries-redacted : (m : Dict Value) → EntriesRedacted (sanitize_entries m)
unfolding sanitize_entries
sanitize_entries-redacted [] = tt
sanitize_entries-redacted ((key, value) ∷ m) = (
  sanitize-sensitive key value,
  sanitize_audit_value-IsRedacted key value,
  sanitize_entries-redacted m,
)

sanitize_entries-public : (m : Dict Value) → EntriesPublic m → sanitize_entries m ≡ m
unfolding sanitize_entries
sanitize_entries-public [] p = refl
sanitize_entries-public ((key, value) ∷ m) p =
    ap₂ (λ v r. (key, v) ∷ r) (sanitize-public key value p.0 p.1) (sanitize_entries-public m p.2)

-- Auditing appends one entry to the log and changes nothing else of the server. In the metadata of the
-- entry each value under a sensitive key, at any depth, is "[redacted]"; and metadata without a
-- sensitive key is kept as it is.
pub audit_locked-redacts :
    (env : Env) (line : ℕ) (admin_id action target_type target_id : String) (r : Request)
    (metadata : Option (Dict Value)) (s : Server)
    → (log : AuditLog) × (audit_locked env line admin_id action target_type target_id r metadata s
        ≡ record s {
          contents = record s.contents { audit_logs = s.contents.audit_logs ++ log ∷ [] };
        })
      × MetadataRedacted log.metadata
      × (MetadataPublic metadata → log.metadata ≡ metadata)
unfolding audit_locked audit_log sanitize_audit_metadata
audit_locked-redacts env line admin_id action target_type target_id r none s =
    (audit_log env line admin_id action target_type target_id r none, refl, tt, λ p. refl)
audit_locked-redacts env line admin_id action target_type target_id r (some m) s = (
  audit_log env line admin_id action target_type target_id r (some m),
  refl,
  sanitize_entries-redacted m,
  λ p. ap some (sanitize_entries-public m p),
)
