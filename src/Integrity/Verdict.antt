-- ===== src/Integrity/Verdict.antt =====
-- The verdict of evaluateIntegrityLocked (internal/licensecore/server.go): its score, level and events.
use license_guard.Base.{
  is_empty, ℕ, ◌≤◌, pos, List, [], ◌∷◌, ◌++◌, map, filter_by, All, true, false, Option, none, some,
  if◌then◌else◌, leb, ◌≡◌, refl, sym, arith, ap, ◌∙◌, append-nil, append_assoc, Bool-cases, inl,
  inr,
}
use license_guard.Types.{AppRelease, RiskEvent}
use license_guard.Server.{Server, Env, add_risk_event_locked, add_events, risk_event}
use license_guard.Integrity.Checks.{Check, Client}
use license_guard.Integrity.ReleaseChecks.{release_checks, unknown_version}
use license_guard.Integrity.ReportChecks.{report_checks}
use license_guard.Integrity.{
  Assessment, apply_check, apply_checks, exact_release, all_checks, unassessed, cap_score,
  risk_level, risk_result, evaluate_integrity_locked,
}

-- The event of a check.
abbrev pub check_event : Env → Client → Check → RiskEvent
check_event env c k =
    risk_event env k.line c.app_id c.device_id c.license_id k.event_type k.severity k.action
      k.summary k.metadata

add_events-nil : (s : Server) → add_events [] s ≡ s
unfolding add_events
add_events-nil s = rw (append-nil s.contents.risk_events)

add_events-add_events :
    (es fs : List RiskEvent) (s : Server)
    → add_events fs (add_events es s) ≡ add_events (es ++ fs) s
unfolding add_events
add_events-add_events es fs s = rw (append_assoc s.contents.risk_events es fs)

apply_check-held :
    (env : Env) (c : Client) (k : Check) (a : Assessment)
    → k.holds ≡ true
    → (apply_check env c k a).server ≡ add_events (check_event env c k ∷ []) a.server
unfolding apply_check add_risk_event_locked
apply_check-held env c k a e = rw e

apply_check-passed :
    (env : Env) (c : Client) (k : Check) (a : Assessment)
    → k.holds ≡ false
    → (apply_check env c k a).server ≡ a.server
unfolding apply_check
apply_check-passed env c k a e = rw e

apply_checks-server :
    (env : Env) (c : Client) (ks : List Check) (a : Assessment)
    → (apply_checks env c ks a).server
      ≡ add_events (map (check_event env c) (filter_by (λ k. k.holds) ks)) a.server
unfolding apply_checks filter_by
apply_checks-server env c [] a = sym (add_events-nil a.server)
apply_checks-server env c (k ∷ ks) a =
    let rest = map (check_event env c) (filter_by (λ k. k.holds) ks) in
    elim (Bool-cases k.holds) [
      | inl e ↦
          apply_checks-server env c ks (apply_check env c k a)
          ∙ ap (add_events rest) (apply_check-held env c k a e)
          ∙ add_events-add_events (check_event env c k ∷ []) rest a.server
          ∙ rw e
      | inr e ↦
          apply_checks-server env c ks (apply_check env c k a)
          ∙ ap (add_events rest) (apply_check-passed env c k a e)
          ∙ rw e
    ]

-- The evaluation changes nothing of the server but its risk events: it appends one for each check
-- that holds, in the order of the checks.
pub evaluate_integrity_locked-events :
    (env : Env) (s : Server) (c : Client)
    → (evaluate_integrity_locked env s c).server
      ≡ add_events
          (map (check_event env c) (filter_by (λ k. k.holds) (all_checks c (exact_release s c))))
          s
unfolding evaluate_integrity_locked
evaluate_integrity_locked-events env s c =
    apply_checks-server env c (all_checks c (exact_release s c)) (unassessed s)

-- The score of a denied client is at least 90.
abbrev IsSevere : Assessment → Type 0
IsSevere a = (10 ≤ a.score) × (a.deny ≡ true → 90 ≤ a.score)

abbrev IsHeavy : Check → Type 0
IsHeavy k = k.denies ≡ true → 80 ≤ k.points

apply_check-IsSevere :
    (env : Env) (c : Client) (k : Check) (a : Assessment)
    → IsHeavy k
    → IsSevere a
    → IsSevere (apply_check env c k a)
unfolding apply_check
apply_check-IsSevere env c k a heavy (low, h) = ground arith

apply_checks-IsSevere :
    (env : Env) (c : Client) (ks : List Check) (a : Assessment)
    → All IsHeavy ks
    → IsSevere a
    → IsSevere (apply_checks env c ks a)
unfolding apply_checks
apply_checks-IsSevere env c [] a heavy h = h
apply_checks-IsSevere env c (k ∷ ks) a (heavy, rest) h =
    apply_checks-IsSevere env c ks (apply_check env c k a) rest
      (apply_check-IsSevere env c k a heavy h)

pub All-append {κ} :
    (P : Check → Type κ) (ks ls : List Check) → All P ks → All P ls → All P (ks ++ ls)
All-append P [] ls h k = k
All-append P (x ∷ ks) ls (p, h) k = (p, All-append P ks ls h k)

report_checks-IsHeavy : (c : Client) → All IsHeavy (report_checks c)
unfolding report_checks
report_checks-IsHeavy c = (
  (λ _. omega arith),
  ((λ _. omega arith), ((λ _. omega arith), ((λ h. cc), ((λ h. cc), ((λ h. cc), tt))))),
)

release_checks-IsHeavy : (c : Client) (r : AppRelease) → All IsHeavy (release_checks c r)
unfolding release_checks
release_checks-IsHeavy c r = (
  (λ _. omega arith),
  (
    (λ h. cc),
    (
      (λ _. omega arith),
      (
        (λ _. omega arith),
        (
          (λ _. omega arith),
          (
            (λ _. omega arith),
            ((λ _. omega arith), ((λ _. omega arith), ((λ _. omega arith), tt))),
          ),
        ),
      ),
    ),
  ),
)

all_checks-IsHeavy : (c : Client) (r : Option AppRelease) → All IsHeavy (all_checks c r)
unfolding all_checks
all_checks-IsHeavy c none =
    All-append IsHeavy (if is_empty c.integrity.app_version then [] else unknown_version c ∷ [])
      (report_checks c) unknown (report_checks-IsHeavy c)
  where
    unknown : All IsHeavy (if is_empty c.integrity.app_version then [] else unknown_version c ∷ [])
    unknown = elim (Bool-cases (is_empty c.integrity.app_version)) [
      | inl e ↦ rw e tt
      | inr e ↦ rw e ((λ h. cc), tt)
    ]
all_checks-IsHeavy c (some r) =
    All-append IsHeavy (release_checks c r) (report_checks c) (release_checks-IsHeavy c r)
      (report_checks-IsHeavy c)

high_level : (n : ℕ) → 80 ≤ n → risk_level n ≡ "high"
high_level n h = ground arith

-- The score lies between 10 and 100; the level is "high" from 80 and "medium" from 45; and a denied
-- client always has a score of at least 90, and so a high risk.
pub evaluate_integrity_locked-score :
    (env : Env) (s : Server) (c : Client)
    → let v = evaluate_integrity_locked env s c in
      (n : ℕ) × (v.risk.score ≡ pos n)
      × (10 ≤ n)
      × (n ≤ 100)
      × (v.risk.level ≡ (if leb 80 n then "high" else if leb 45 n then "medium" else "low"))
      × (v.deny ≡ true → (90 ≤ n) × (v.risk.level ≡ "high"))
unfolding evaluate_integrity_locked risk_result
evaluate_integrity_locked-score env s c =
    let a = apply_checks env c (all_checks c (exact_release s c)) (unassessed s) in
    let (low, severe) =
      apply_checks-IsSevere env c (all_checks c (exact_release s c)) (unassessed s)
        (all_checks-IsHeavy c (exact_release s c)) (omega arith, λ h. cc) in
    (
      cap_score a.score,
      refl,
      ground arith,
      ground arith,
      refl,
      λ h. (ground arith, high_level (cap_score a.score) (ground arith)),
    )
