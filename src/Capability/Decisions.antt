-- ===== src/Capability/Decisions.antt =====
-- What a decision of capabilityDecision (internal/licensecore/server.go) allows.
use license_guard.Base.{
  String, List, [], ◌∷◌, ◌++◌, Bool, true, Option, none, some, if◌then◌else◌, trim_space, ◌==◌,
  one_of, any, ◌≡◌, ◌≢◌, ◌∙◌, sym, ◌↔◌, refl, arith, Bool-cases, inl, inr, eq_iff, IsIn, ◌⊎◌,
}
use license_guard.Types.{CapabilityPolicy}
use license_guard.Capability.{
  normalize_capability_policy_mode, valid_capability_policy_mode, has_entitlement, decided_mode,
  capability_decision,
}

-- The policy that a decision rests on asks for nothing, or for an entitlement that the license has. The
-- surrounding space of what it asks for does not count.
pub record IsEntitled (policy : Option CapabilityPolicy) (entitlements : List String) : Type 0 where
  pub registered : CapabilityPolicy
  pub found : policy ≡ some registered
  pub entitled :
      (trim_space registered.required_entitlement ≡ "")
      ⊎ IsIn (trim_space registered.required_entitlement) entitlements

any-IsIn :
    (wanted : String) (xs : List String) → (any (λ e. e == wanted) xs ≡ true) ↔ IsIn wanted xs
any-IsIn wanted [] = (λ h. absurd (ground arith), λ h. absurd h)
any-IsIn wanted (x ∷ xs) = (
  λ h. ground (arith, any-IsIn wanted xs, eq_iff x wanted),
  λ h. ground (arith, any-IsIn wanted xs, eq_iff x wanted),
)

has_entitlement_iff :
    (entitlements : List String) (required : String)
    → (has_entitlement entitlements required ≡ true)
      ↔ ((trim_space required ≡ "") ⊎ IsIn (trim_space required) entitlements)
unfolding has_entitlement
has_entitlement_iff entitlements required =
    let wanted = trim_space required in
    (
      λ h. ground (arith, any-IsIn wanted entitlements, eq_iff wanted ""),
      λ h. ground (arith, any-IsIn wanted entitlements, eq_iff wanted ""),
    )

-- A capability is allowed exactly if it is registered, and its policy asks for no entitlement, or for one
-- that the license has, with the space around what it asks for taken off. So the policy's mode, "allow"
-- included, has no part in it.
pub capability_decision-IsEntitled :
    (policy : Option CapabilityPolicy) (entitlements : List String) (capability : String)
    → ((capability_decision policy entitlements capability).allowed ≡ true)
      ↔ IsEntitled policy entitlements
unfolding capability_decision
capability_decision-IsEntitled none entitlements capability =
    (λ h. absurd (ground arith), λ e. absurd (ground (arith, e.found)))
capability_decision-IsEntitled (some p) entitlements capability = (
  λ h. record {
    registered = p;
    found = refl;
    entitled = (has_entitlement_iff entitlements p.required_entitlement).0 (ground arith);
  },
  λ e. ground (
    arith,
    e.found,
    (has_entitlement_iff entitlements e.registered.required_entitlement).1 e.entitled,
  ),
)

block_valid : valid_capability_policy_mode "block" ≡ true
unfolding valid_capability_policy_mode one_of
block_valid = refl

allow_valid : valid_capability_policy_mode "allow" ≡ true
unfolding valid_capability_policy_mode one_of
allow_valid = refl

decided_mode-valid : (mode : String) → valid_capability_policy_mode (decided_mode mode) ≡ true
unfolding decided_mode
decided_mode-valid mode =
    let normal = normalize_capability_policy_mode mode in
    elim (Bool-cases (valid_capability_policy_mode normal)) [
      | inl e ↦ rw e e
      | inr e ↦ rw e block_valid
    ]

denied_mode-valid :
    (mode : String)
    → valid_capability_policy_mode mode ≡ true
    → valid_capability_policy_mode (if mode == "allow" then "block" else mode) ≡ true
denied_mode-valid mode h = elim (Bool-cases (mode == "allow")) [
  | inl e ↦ rw e block_valid
  | inr e ↦ rw e h
]

denied_mode-ne-allow : (mode : String) → (if mode == "allow" then "block" else mode) ≢ "allow"
denied_mode-ne-allow mode h = elim (Bool-cases (mode == "allow")) [
  | inl e ↦ block_not_allow (rw e at h)
  | inr e ↦ cc (sym e ∙ (eq_iff mode "allow").1 (rw e at h))
]
  where
    block_not_allow : ¬ (◌≡◌ {A = String} "block" "allow")
    block_not_allow e = ground (arith, eq_iff "block" "allow")

-- In every decision the two modes are among the seven that the server knows, and the effective mode
-- is "allow" exactly if the capability is allowed.
pub capability_decision-modes :
    (policy : Option CapabilityPolicy) (entitlements : List String) (capability : String)
    → let d = capability_decision policy entitlements capability in
      (valid_capability_policy_mode d.configured_mode ≡ true)
      × (valid_capability_policy_mode d.effective_mode ≡ true)
      × ((d.effective_mode ≡ "allow") ↔ (d.allowed ≡ true))
unfolding capability_decision
capability_decision-modes none entitlements capability = (
  block_valid,
  block_valid,
  (λ h. absurd (ground (arith, eq_iff "block" "allow")), λ h. absurd (ground arith)),
)
capability_decision-modes (some p) entitlements capability =
    let mode = decided_mode p.mode in
    elim (Bool-cases (has_entitlement entitlements p.required_entitlement)) [
      | inl e ↦ rw e (decided_mode-valid p.mode, allow_valid, (λ h. refl, λ h. refl))
      | inr e ↦ rw e (
        decided_mode-valid p.mode,
        denied_mode-valid mode (decided_mode-valid p.mode),
        (λ h. absurd (denied_mode-ne-allow mode h), λ h. cc),
      )
    ]

any-append : (p : String → Bool) (xs ys : List String) → any p xs ≡ true → any p (xs ++ ys) ≡ true
any-append p [] ys h = absurd (ground arith)
any-append p (x ∷ xs) ys h = ground (arith, any-append p xs ys)

has_entitlement-append :
    (entitlements more : List String) (required : String)
    → has_entitlement entitlements required ≡ true
    → has_entitlement (entitlements ++ more) required ≡ true
unfolding has_entitlement
has_entitlement-append entitlements more required h =
    ground (arith, any-append (λ e. e == trim_space required) entitlements more)

-- A license with more entitlements is allowed no less.
pub capability_decision_mono :
    (policy : Option CapabilityPolicy) (entitlements more : List String) (capability : String)
    → (capability_decision policy entitlements capability).allowed ≡ true
    → (capability_decision policy (entitlements ++ more) capability).allowed ≡ true
unfolding capability_decision
capability_decision_mono none entitlements more capability h = absurd (ground arith)
capability_decision_mono (some p) entitlements more capability h =
    ground (arith, has_entitlement-append entitlements more p.required_entitlement)
