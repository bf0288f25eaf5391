-- ===== src/Release/Search.antt =====
-- Which release internal/licensecore/server.go finds: findReleaseLocked and latestReleaseLocked.
use license_guard.Base.{
  String, List, [], ◌∷◌, Bool, true, false, ◌&&◌, Option, none, some, ◌==◌, find_first, filter_by,
  sort_slice, head?, head?-sort_slice, All-sort_slice, All, ◌≡◌, refl, subst, arith, Bool-cases,
  inl, inr, eq_iff, IsIn, All-map, All-IsIn, ◌≤ℤ◌, ◌≤◌, ◌↔◌,
}
use license_guard.Types.{AppRelease}
use license_guard.Server.{Server}
use license_guard.Release.{
  is_release, release_loop, find_release_locked, newer, is_offered, latest_release_locked,
}

abbrev or_else : Option AppRelease → Option AppRelease → Option AppRelease
or_else none o = o
or_else (some r) o = some r

release_loop-eq :
    (app_id platform version : String) (fallback : Option AppRelease) (rs : List AppRelease)
    → let matches = is_release app_id platform version in
      release_loop app_id platform version fallback rs
      ≡ or_else
          (find_first (λ r. matches r && r.status == "blocked") rs)
          (or_else fallback (find_first matches rs))
unfolding release_loop find_first
release_loop-eq app_id platform version none [] = refl
release_loop-eq app_id platform version (some f) [] = refl
release_loop-eq app_id platform version none (r ∷ rs) = ground (
  arith,
  release_loop-eq app_id platform version none rs,
  release_loop-eq app_id platform version (some r) rs,
)
release_loop-eq app_id platform version (some f) (r ∷ rs) =
    ground (arith, release_loop-eq app_id platform version (some f) rs)

-- The one pass over the releases finds the first release of the app, platform and version that is
-- blocked, and if none is blocked the first one at all: a block of a version cannot be hidden by
-- another release of it.
pub find_release_locked-eq :
    (s : Server) (app_id platform version : String)
    → let matches = is_release app_id platform version in
      find_release_locked s app_id platform version
      ≡ (elim (find_first (λ r. matches r && r.status == "blocked") s.contents.releases) [
        | none ↦ find_first matches s.contents.releases
        | some r ↦ some r
      ])
unfolding find_release_locked
find_release_locked-eq s app_id platform version =
    ground (arith, release_loop-eq app_id platform version none s.contents.releases)

-- A release is not newer than another one: its build number is no greater, and with the same build number
-- its time is no later.
abbrev pub IsNoNewer : AppRelease → AppRelease → Type 0
IsNoNewer a b =
    (a.build_number ≤ℤ b.build_number)
    × (a.build_number ≡ b.build_number → a.created_at ≤ b.created_at)

not_newer-IsNoNewer : (a b : AppRelease) → newer a b ≡ false → IsNoNewer a b
not_newer-IsNoNewer a b h = (ground arith, λ e. ground arith)

newer_asym : (a b : AppRelease) → newer a b ≡ true → newer b a ≡ false
newer_asym a b h = ground arith

newer_trans : (a b c : AppRelease) → newer a b ≡ false → newer b c ≡ false → newer a c ≡ false
newer_trans a b c h k = ground arith

All-filter_by :
    (p : AppRelease → Bool) (xs : List AppRelease) → All (λ x. p x ≡ true) (filter_by p xs)
unfolding filter_by
All-filter_by p [] = tt
All-filter_by p (x ∷ xs) = elim (Bool-cases (p x)) [
  | inl e ↦ rw e (e, All-filter_by p xs)
  | inr e ↦ rw e (All-filter_by p xs)
]

of_All-filter_by :
    (p : AppRelease → Bool) (P : AppRelease → Type 0) (xs : List AppRelease)
    → All P (filter_by p xs)
    → All (λ x. p x ≡ true → P x) xs
unfolding filter_by
of_All-filter_by p P [] h = tt
of_All-filter_by p P (x ∷ xs) h = elim (Bool-cases (p x)) [
  | inl e ↦ let (q, rest) = rw e at h in ((λ _. q), of_All-filter_by p P xs rest)
  | inr e ↦ ((λ k. cc), of_All-filter_by p P xs (rw e at h))
]

head?-All :
    (P : AppRelease → Type 0) (xs : List AppRelease) {h : AppRelease}
    → All P xs
    → head? xs ≡ some h
    → P h
head?-All P [] a e = cc
head?-All P (x ∷ xs) a e = subst P (cc) a.0

filter_by-All {κ} :
    (P : AppRelease → Type κ) (p : AppRelease → Bool) (xs : List AppRelease)
    → All P xs
    → All P (filter_by p xs)
unfolding filter_by
filter_by-All P p [] h = tt
filter_by-All P p (x ∷ xs) (h, hs) = elim (Bool-cases (p x)) [
  | inl e ↦ rw e (h, filter_by-All P p xs hs)
  | inr e ↦ rw e (filter_by-All P p xs hs)
]

-- A release is active, for the app and the platform.
abbrev pub IsActiveFor : String → String → AppRelease → Type 0
IsActiveFor app_id platform r =
    (r.app_id ≡ app_id) × (r.platform ≡ platform) × (r.status ≡ "active")

is_offered_iff :
    (app_id platform : String) (r : AppRelease)
    → (is_offered app_id platform r ≡ true) ↔ IsActiveFor app_id platform r
is_offered_iff app_id platform r = (
  λ h. (
    ground (arith, eq_iff r.app_id app_id),
    ground (arith, eq_iff r.platform platform),
    ground (arith, eq_iff r.status "active"),
  ),
  λ (a, p, s). ground (
    arith,
    (eq_iff r.app_id app_id).1 a,
    (eq_iff r.platform platform).1 p,
    (eq_iff r.status "active").1 s,
  ),
)

-- The newest of the active releases for an app and a platform.
pub record IsNewest (releases : List AppRelease) (app_id platform : String) (r : AppRelease)
    : Type 0 where
  pub stored : IsIn r releases
  pub offered : IsActiveFor app_id platform r
  pub newest : All (λ x. IsActiveFor app_id platform x → IsNoNewer x r) releases

-- The latest release of an app and platform is a stored release that is active there, and of all the
-- stored releases that are active there none has a greater build number, or the same one and a later
-- time.
pub latest_release_locked-IsNewest :
    (s : Server) (app_id platform : String) {r : AppRelease}
    → latest_release_locked s app_id platform ≡ some r
    → IsNewest s.contents.releases app_id platform r
unfolding latest_release_locked
latest_release_locked-IsNewest s app_id platform {r} e =
    let offered = is_offered app_id platform in
    let all = s.contents.releases in
    let items = filter_by offered all in
    let least =
      of_All-filter_by offered _ all (head?-sort_slice newer newer_asym newer_trans items e) in
    record {
      stored =
          head?-All (λ x. IsIn x all) (sort_slice newer items)
            (All-sort_slice newer (λ x. IsIn x all) items
              (filter_by-All (λ x. IsIn x all) offered all (All-IsIn all)))
            e;
      offered = (is_offered_iff app_id platform r).0 (
          head?-All (λ x. offered x ≡ true) (sort_slice newer items)
            (All-sort_slice newer (λ x. offered x ≡ true) items (All-filter_by offered all)) e);
      newest =
          All-map (λ x. offered x ≡ true → newer x r ≡ false)
            (λ x. IsActiveFor app_id platform x → IsNoNewer x r) all
            (λ x h active.
              not_newer-IsNoNewer x r (h ((is_offered_iff app_id platform x).1 active)))
            least;
    }
