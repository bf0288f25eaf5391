-- ===== src/Integrity/Deny.antt =====
-- When evaluateIntegrityLocked (internal/licensecore/server.go) denies a client.
use license_guard.Base.{
  List, [], ◌∷◌, ◌++◌, any, Bool, true, false, ◌||◌, ◌&&◌, Option, none, some, if◌then◌else◌,
  is_empty, ◌==◌, ◌≡◌, refl, arith, ◌∙◌,
}
use license_guard.Types.{AppRelease, IntegrityRequest}
use license_guard.Server.{Server, Env}
use license_guard.Integrity.Checks.{
  Check, Client, release_business_manifest_sha256, db_encryption_status_failed,
  business_integrity_failed, differs, both_differ, is_false,
}
use license_guard.Integrity.ReleaseChecks.{release_checks, unknown_version}
use license_guard.Integrity.ReportChecks.{report_checks}
use license_guard.Integrity.{
  Assessment, apply_check, apply_checks, exact_release, all_checks, unassessed,
  evaluate_integrity_locked,
}

abbrev pub denies : List Check → Bool
denies = any (λ k. k.holds && k.denies)

or_assoc : (a b c : Bool) → ((a || b) || c) ≡ (a || (b || c))
or_assoc a b c = ground arith

apply_check-deny :
    (env : Env) (c : Client) (k : Check) (a : Assessment)
    → (apply_check env c k a).deny ≡ (a.deny || (k.holds && k.denies))
unfolding apply_check
apply_check-deny env c k a = ground arith

pub apply_checks-deny :
    (env : Env) (c : Client) (ks : List Check) (a : Assessment)
    → (apply_checks env c ks a).deny ≡ (a.deny || denies ks)
unfolding apply_checks
apply_checks-deny env c [] a = ground arith
apply_checks-deny env c (k ∷ ks) a =
    ground (arith, apply_checks-deny env c ks (apply_check env c k a), apply_check-deny env c k a)

-- What a client reports against the release that it says it runs.
abbrev pub contradicts : IntegrityRequest → AppRelease → Bool
contradicts i r =
    r.status == "blocked"
    || (both_differ r.main_binary_hash i.main_binary_hash
        || (both_differ r.signer_thumbprint i.signer_thumbprint
            || (differs (release_business_manifest_sha256 r) i.business_manifest_sha256
                || (differs r.protected_db_schema_hash i.protected_db_schema_hash
                    || (differs r.protected_db_tables_hash i.protected_db_tables_hash
                        || (differs r.assets_manifest_sha256 i.assets_manifest_sha256
                            || differs r.workflow_manifest_sha256 i.workflow_manifest_sha256))))))

-- What a client reports of itself.
abbrev pub admits : IntegrityRequest → Bool
admits i =
    is_false i.business_manifest_signature_valid
    || business_integrity_failed i.business_integrity_status
    || db_encryption_status_failed i.db_encryption_status

-- Of the release that a client says it runs, if there is one.
abbrev pub contradicts_release : IntegrityRequest → Option AppRelease → Bool
contradicts_release i none = false
contradicts_release i (some r) = contradicts i r

denies-append : (ks ls : List Check) → denies (ks ++ ls) ≡ (denies ks || denies ls)
denies-append [] ls = refl
denies-append (k ∷ ks) ls = ground (arith, denies-append ks ls)

-- One check that denies, one that does not, and the last one.
or_first : (b : Bool) {x y : Bool} → x ≡ y → (if b && true then true else x) ≡ (b || y)
or_first b h = ground arith

pass_over : (b : Bool) {x y : Bool} → x ≡ y → (if b && false then true else x) ≡ y
pass_over b h = ground arith

or_last : (b : Bool) → (if b && true then true else false) ≡ b
or_last b = ground arith

-- The nine checks against a release, of which the second does not deny.
or_chain :
    (b d m s u v w x y : Bool)
    → (if b && true
        then true
        else if d && false
        then true
        else if m && true
        then true
        else if s && true
        then true
        else if u && true
        then true
        else if v && true
        then true
        else if w && true
        then true
        else if x && true
        then true
        else if y && true
        then true
        else false)
      ≡ (b || (m || (s || (u || (v || (w || (x || y)))))))
or_chain b d m s u v w x y = or_first b (
    pass_over d (
      or_first m
        (or_first s (or_first u (or_first v (or_first w (or_first x {y = y} (or_last y))))))))

denies-report_checks : (c : Client) → denies (report_checks c) ≡ admits c.integrity
unfolding report_checks
denies-report_checks c = ground arith

denies-release_checks :
    (c : Client) (r : AppRelease) → denies (release_checks c r) ≡ contradicts c.integrity r
unfolding release_checks
denies-release_checks c r =
    let i = c.integrity in
    or_chain (r.status == "blocked") (r.status == "deprecated")
      (both_differ r.main_binary_hash i.main_binary_hash)
      (both_differ r.signer_thumbprint i.signer_thumbprint)
      (differs (release_business_manifest_sha256 r) i.business_manifest_sha256)
      (differs r.protected_db_schema_hash i.protected_db_schema_hash)
      (differs r.protected_db_tables_hash i.protected_db_tables_hash)
      (differs r.assets_manifest_sha256 i.assets_manifest_sha256)
      (differs r.workflow_manifest_sha256 i.workflow_manifest_sha256)

-- A client is denied exactly if it reports a failure of its own, or contradicts the release that it
-- says it runs: the release is blocked, or one of its seven hashes is set and is not the client's
-- (for the binary and the signer, only if the client reports one at all).
pub evaluate_integrity_locked-deny :
    (env : Env) (s : Server) (c : Client)
    → (evaluate_integrity_locked env s c).deny
      ≡ (contradicts_release c.integrity (exact_release s c) || admits c.integrity)
unfolding evaluate_integrity_locked all_checks
evaluate_integrity_locked-deny env s c =
    apply_checks-deny env c (all_checks c (exact_release s c)) (unassessed s)
    ∙ denies-all_checks c (exact_release s c)
  where
    denies-all_checks :
        (c : Client) (r : Option AppRelease)
        → denies (all_checks c r) ≡ (contradicts_release c.integrity r || admits c.integrity)
    denies-all_checks c none =
        denies-append (if is_empty c.integrity.app_version then [] else unknown_version c ∷ [])
          (report_checks c)
        ∙ ground (arith, denies-report_checks c)
    denies-all_checks c (some r) =
        denies-append (release_checks c r) (report_checks c)
        ∙ ground (arith, denies-release_checks c r, denies-report_checks c)
