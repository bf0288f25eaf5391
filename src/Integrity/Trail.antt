-- ===== src/Integrity/Trail.antt =====
-- The risk events of evaluateIntegrityLocked (internal/licensecore/server.go) against its verdict.
use license_guard.Base.{
  is_empty, List, [], ◌∷◌, ◌++◌, map, filter_by, any, All, Bool, Option, none, some, if◌then◌else◌,
  ◌==◌, ◌≡◌, refl, sym, ◌∙◌, Bool-cases, inl, inr,
}
use license_guard.Types.{AppRelease, RiskEvent}
use license_guard.Server.{Server, Env, add_events, risk_event}
use license_guard.Integrity.Checks.{Check, Client}
use license_guard.Integrity.ReleaseChecks.{release_checks, unknown_version}
use license_guard.Integrity.ReportChecks.{report_checks}
use license_guard.Integrity.Deny.{denies, apply_checks-deny}
use license_guard.Integrity.Verdict.{check_event, All-append, evaluate_integrity_locked-events}
use license_guard.Integrity.{exact_release, all_checks, unassessed, evaluate_integrity_locked}

-- An event that the action "deny" and the severity "high" mark exactly if the check denies.
abbrev IsMarked : Check → Type 0
IsMarked k = ((k.action == "deny") ≡ k.denies) × ((k.severity == "high") ≡ k.denies)

-- An event is about a client.
abbrev pub IsAbout : Client → RiskEvent → Type 0
IsAbout c e = (e.app_id ≡ c.app_id) × (e.device_id ≡ c.device_id) × (e.license_id ≡ c.license_id)

release_checks-IsMarked : (c : Client) (r : AppRelease) → All IsMarked (release_checks c r)
unfolding release_checks
release_checks-IsMarked c r = (
  (refl, refl),
  (
    (refl, refl),
    (
      (refl, refl),
      (
        (refl, refl),
        ((refl, refl), ((refl, refl), ((refl, refl), ((refl, refl), ((refl, refl), tt))))),
      ),
    ),
  ),
)

report_checks-IsMarked : (c : Client) → All IsMarked (report_checks c)
unfolding report_checks
report_checks-IsMarked c = (
  (refl, refl),
  ((refl, refl), ((refl, refl), ((refl, refl), ((refl, refl), ((refl, refl), tt))))),
)

all_checks-IsMarked : (c : Client) (r : Option AppRelease) → All IsMarked (all_checks c r)
unfolding all_checks
all_checks-IsMarked c none =
    All-append IsMarked (if is_empty c.integrity.app_version then [] else unknown_version c ∷ [])
      (report_checks c) unknown (report_checks-IsMarked c)
  where
    unknown : All IsMarked (if is_empty c.integrity.app_version then [] else unknown_version c ∷ [])
    unknown = elim (Bool-cases (is_empty c.integrity.app_version)) [
      | inl e ↦ rw e tt
      | inr e ↦ rw e ((refl, refl), tt)
    ]
all_checks-IsMarked c (some r) =
    All-append IsMarked (release_checks c r) (report_checks c) (release_checks-IsMarked c r)
      (report_checks-IsMarked c)

module _ (env : Env) (c : Client) where
  -- The events of the checks that hold.
  abbrev events : List Check → List RiskEvent
  events ks = map (check_event env c) (filter_by (λ k. k.holds) ks)

  events-deny :
      (ks : List Check) → All IsMarked ks → any (λ e. e.action == "deny") (events ks) ≡ denies ks
  unfolding filter_by risk_event
  events-deny [] h = refl
  events-deny (k ∷ ks) ((action, severity), h) = elim (Bool-cases k.holds) [
    | inl e ↦ rw (e, action, events-deny ks h) refl
    | inr e ↦ rw (e, events-deny ks h) refl
  ]

  events-high :
      (ks : List Check) → All IsMarked ks → any (λ e. e.severity == "high") (events ks) ≡ denies ks
  unfolding filter_by risk_event
  events-high [] h = refl
  events-high (k ∷ ks) ((action, severity), h) = elim (Bool-cases k.holds) [
    | inl e ↦ rw (e, severity, events-high ks h) refl
    | inr e ↦ rw (e, events-high ks h) refl
  ]

  events-IsAbout : (ks : List Check) → All (IsAbout c) (events ks)
  unfolding filter_by risk_event
  events-IsAbout [] = tt
  events-IsAbout (k ∷ ks) = elim (Bool-cases k.holds) [
    | inl e ↦ rw e ((refl, refl, refl), events-IsAbout ks)
    | inr e ↦ rw e (events-IsAbout ks)
  ]

-- The risk events that an evaluation leaves tell of its verdict.
pub record IsRecorded (s : Server) (c : Client) (s' : Server) (deny : Bool) : Type 0 where
  pub added : List RiskEvent
  pub appended :
      s'
      ≡ record s { contents = record s.contents { risk_events = s.contents.risk_events ++ added } }
  pub about : All (IsAbout c) added
  pub by_action : any (λ e. e.action == "deny") added ≡ deny
  pub by_severity : any (λ e. e.severity == "high") added ≡ deny

-- The evaluation changes nothing of the server but its risk events, to which it appends some about the
-- client: its app, its device and its license. The client is denied exactly if one of them has the action
-- "deny", and exactly if one of them has the severity "high".
pub evaluate_integrity_locked-IsRecorded :
    (env : Env) (s : Server) (c : Client)
    → let v = evaluate_integrity_locked env s c in IsRecorded s c v.server v.deny
unfolding evaluate_integrity_locked add_events
evaluate_integrity_locked-IsRecorded env s c =
    let checks = all_checks c (exact_release s c) in
    let marked = all_checks-IsMarked c (exact_release s c) in
    let verdict = sym (apply_checks-deny env c checks (unassessed s)) in
    record {
      added = events env c checks;
      appended = evaluate_integrity_locked-events env s c;
      about = events-IsAbout env c checks;
      by_action = events-deny env c checks marked ∙ verdict;
      by_severity = events-high env c checks marked ∙ verdict;
    }
