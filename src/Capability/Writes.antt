-- ===== src/Capability/Writes.antt =====
-- The registry of policies after upsertCapabilityPoliciesLocked (internal/licensecore/server.go).
use mathlib.Core.Path.{ap₂}
use license_guard.Base.{
  String, List, [], ◌∷◌, ◌++◌, ◌&&◌, Option, none, some, if◌then◌else◌, ◌==◌, find_first,
  update_first, ◌≡◌, arith, refl, sym, ◌∙◌, &&-eq-true, eq_iff, Option-cases, inl, inr, Bool-cases,
}
use license_guard.Types.{CapabilityPolicy, Time}
use license_guard.Server.Find.{is_policy}
use license_guard.Capability.Registry.{
  with_created_at, normal_policy, upsert_policy, upsert_policies,
}

-- No two policies are of the same app and capability.
abbrev pub HasDistinctKeys : List CapabilityPolicy → Type 0
HasDistinctKeys [] = Unit
HasDistinctKeys (p ∷ ps) =
    (find_first (is_policy p.app_id p.capability) ps ≡ none) × HasDistinctKeys ps

-- A policy by its app and capability.
abbrev pub find_policy : String → String → List CapabilityPolicy → Option CapabilityPolicy
find_policy app_id capability ps = find_first (is_policy app_id capability) ps

-- A write through the pointer to a policy changes what is found under its key, and nothing else.
find_policy-update_first :
    (a c b d : String) (f : CapabilityPolicy → CapabilityPolicy) (ps : List CapabilityPolicy)
    → ((p : CapabilityPolicy) → ((f p).app_id ≡ a) × ((f p).capability ≡ c))
    → find_policy b d (update_first (is_policy a c) f ps) ≡ (
        if a == b && c == d
        then (elim (find_policy a c ps) [ none ↦ none | some p ↦ some (f p) ])
        else find_policy b d ps)
unfolding find_first update_first
find_policy-update_first a c b d f [] key = ground arith
find_policy-update_first a c b d f (p ∷ ps) key = ground (
  arith,
  find_policy-update_first a c b d f ps key,
  key p,
  eq_iff a b,
  eq_iff c d,
  eq_iff p.app_id a,
  eq_iff p.capability c,
  eq_iff p.app_id b,
  eq_iff p.capability d,
)

find_policy-append :
    (b d : String) (ps : List CapabilityPolicy) (q : CapabilityPolicy)
    → find_policy b d (ps ++ q ∷ []) ≡ (elim (find_policy b d ps) [
      | none ↦ if q.app_id == b && q.capability == d then some q else none
      | some p ↦ some p
    ])
unfolding find_first
find_policy-append b d [] q = refl
find_policy-append b d (p ∷ ps) q = ground (arith, find_policy-append b d ps q)

-- After a write, a search finds the policy written under its own app and capability, with the time
-- of creation of the policy that it replaces, if there was one, and with its own time of update for
-- a zero time; under any other key it finds what it found before.
pub find_policy-upsert_policy :
    (stored : List CapabilityPolicy) (policy : CapabilityPolicy) (app_id capability : String)
    → let created : Time = elim (find_policy policy.app_id policy.capability stored) [
      | none ↦ policy.created_at
      | some old ↦ old.created_at
    ] in
      find_policy app_id capability (upsert_policy stored policy) ≡ (
        if policy.app_id == app_id && policy.capability == capability
        then some (with_created_at created (normal_policy policy))
        else find_policy app_id capability stored)
unfolding upsert_policy
find_policy-upsert_policy stored policy app_id capability =
    elim (Option-cases (find_policy policy.app_id policy.capability stored)) [
      | inl e ↦ ground (
        arith,
        e,
        eq_iff policy.app_id app_id,
        eq_iff policy.capability capability,
        find_policy-append app_id capability stored
            (with_created_at policy.created_at (normal_policy policy)),
      )
      | inr (old, e) ↦ ground (
        arith,
        e,
        find_policy-update_first policy.app_id policy.capability app_id capability
            (λ old. with_created_at old.created_at (normal_policy policy)) stored
            (λ p. (refl, refl)),
      )
    ]

HasDistinctKeys-update_first :
    (a c : String) (f : CapabilityPolicy → CapabilityPolicy) (ps : List CapabilityPolicy)
    → ((p : CapabilityPolicy) → ((f p).app_id ≡ a) × ((f p).capability ≡ c))
    → HasDistinctKeys ps
    → HasDistinctKeys (update_first (is_policy a c) f ps)
unfolding update_first
HasDistinctKeys-update_first a c f [] key h = tt
HasDistinctKeys-update_first a c f (p ∷ ps) key (fresh, h) =
    elim (Bool-cases (p.app_id == a && p.capability == c)) [
      | inl e ↦ rw e (
        ap₂ (λ x y. find_policy x y ps)
              ((key p).0 ∙ sym ((eq_iff p.app_id a).0 (&&-eq-true _ _ e).0))
              ((key p).1 ∙ sym ((eq_iff p.capability c).0 (&&-eq-true _ _ e).1))
            ∙ fresh,
        h,
      )
      | inr e ↦ rw e (
        find_policy-update_first a c p.app_id p.capability f ps key
            ∙ ground (
              arith,
              fresh,
              eq_iff p.app_id a,
              eq_iff p.capability c,
              eq_iff a p.app_id,
              eq_iff c p.capability,
            ),
        HasDistinctKeys-update_first a c f ps key h,
      )
    ]

HasDistinctKeys-append :
    (ps : List CapabilityPolicy) (q : CapabilityPolicy)
    → find_policy q.app_id q.capability ps ≡ none
    → HasDistinctKeys ps
    → HasDistinctKeys (ps ++ q ∷ [])
unfolding find_first
HasDistinctKeys-append [] q fresh h = (refl, tt)
HasDistinctKeys-append (p ∷ ps) q fresh (apart, h) = (
  rw (find_policy-append p.app_id p.capability ps q) (
      rw apart (
        ground (
          arith,
          eq_iff p.app_id q.app_id,
          eq_iff p.capability q.capability,
          eq_iff q.app_id p.app_id,
          eq_iff q.capability p.capability,
        ))),
  HasDistinctKeys-append ps q (ground arith) h,
)

upsert_policy-HasDistinctKeys :
    (stored : List CapabilityPolicy) (policy : CapabilityPolicy)
    → HasDistinctKeys stored
    → HasDistinctKeys (upsert_policy stored policy)
unfolding upsert_policy
upsert_policy-HasDistinctKeys stored policy h =
    elim (Option-cases (find_policy policy.app_id policy.capability stored)) [
      | inl e ↦ rw e (HasDistinctKeys-append stored _ e h)
      | inr (old, e) ↦ rw e (HasDistinctKeys-update_first _ _ _ stored (λ p. (refl, refl)) h)
    ]

-- Writes keep the keys of the registry distinct.
pub upsert_policies-HasDistinctKeys :
    (stored policies : List CapabilityPolicy)
    → HasDistinctKeys stored
    → HasDistinctKeys (upsert_policies stored policies)
unfolding upsert_policies
upsert_policies-HasDistinctKeys stored [] h = h
upsert_policies-HasDistinctKeys stored (p ∷ ps) h =
    upsert_policies-HasDistinctKeys (upsert_policy stored p) ps
      (upsert_policy-HasDistinctKeys stored p h)
