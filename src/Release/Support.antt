-- ===== src/Release/Support.antt =====
-- Which versions are still supported (internal/licensecore/server.go: isBelowMinSupportedLocked).
use license_guard.Base.{
  ℤ, pos, negsuc, ◌≤ℤ◌, String, true, Option, none, some, is_empty, ◌≡◌, ◌≢◌, ◌⊎◌, ◌↔◌, refl, sym,
  ◌∙◌, arith, inl, inr, eq_iff, Bool-cases, eq_of_parts, ltb_ℤ, false,
}
use license_guard.Types.{AppRelease}
use license_guard.Server.{Server}
use license_guard.Release.{eq_ℤ, find_release_locked, below_min, is_below_min_supported_locked}
use license_guard.Release.Version.{compare_version_strings}

-- A release that was found has a build number, other than zero.
abbrev pub HasBuild : Option AppRelease → ℤ → Type 0
HasBuild none n = ⊥
HasBuild (some r) n = (r.build_number ≡ n) × (n ≢ pos 0)

-- A version is below another one: by the build numbers of their releases if both have one, and otherwise
-- as a version.
abbrev pub IsBelow : Option AppRelease → Option AppRelease → String → String → Type 0
IsBelow current minimum version min_version =
    ((m : ℤ) × (n : ℤ) × HasBuild current m × HasBuild minimum n × (m ≢ n) × (m ≤ℤ n))
    ⊎ (((m : ℤ) (n : ℤ) → HasBuild current m → HasBuild minimum n → ⊥)
        × (compare_version_strings version min_version ≤ℤ negsuc 0))

is_zero-eq : (z : ℤ) → (eq_ℤ z (pos 0) ≡ true) ↔ (z ≡ pos 0)
is_zero-eq (pos n) = (λ h. ground arith, λ h. ground arith)
is_zero-eq (negsuc n) = (λ h. absurd (ground arith), λ h. absurd (ground arith))

lt_of_le : (a b : ℤ) → a ≤ℤ b → a ≢ b → ltb_ℤ a b ≡ true
lt_of_le a b h ne = elim (Bool-cases (ltb_ℤ a b)) [
  | inl e ↦ e
  | inr e ↦ absurd (ne (eq_of_parts a b (ground arith)))
]

-- Two build numbers decide if neither is zero.
by_builds :
    (c d : AppRelease) (version min_version : String)
    → eq_ℤ c.build_number (pos 0) ≡ false
    → eq_ℤ d.build_number (pos 0) ≡ false
    → (below_min (some c) (some d) version min_version ≡ true)
      ↔ IsBelow (some c) (some d) version min_version
by_builds c d version min_version hc hd =
    let nc : c.build_number ≢ pos 0 = λ e. ground (arith, (is_zero-eq c.build_number).1 e) in
    let nd : d.build_number ≢ pos 0 = λ e. ground (arith, (is_zero-eq d.build_number).1 e) in
    (
      λ h. inl (
        c.build_number,
        d.build_number,
        (refl, nc),
        (refl, nd),
        (λ e. ground (arith, e)),
        ground arith,
      ),
      if_so nc nd,
    )
  where
    if_so :
        c.build_number ≢ pos 0
        → d.build_number ≢ pos 0
        → IsBelow (some c) (some d) version min_version
        → below_min (some c) (some d) version min_version ≡ true
    if_so nc nd (inl (m, n, a, b, ne, le)) =
        let ne' : c.build_number ≢ d.build_number = λ e. ne (sym a.0 ∙ e ∙ b.0) in
        let le' : c.build_number ≤ℤ d.build_number = ground (arith, a.0, b.0) in
        ground (arith, lt_of_le c.build_number d.build_number le' ne')
    if_so nc nd (inr (unknown, h)) =
        absurd (unknown c.build_number d.build_number (refl, nc) (refl, nd))

-- Without two build numbers the versions decide.
by_versions :
    (current minimum : Option AppRelease) (version min_version : String)
    → ((m n : ℤ) → HasBuild current m → HasBuild minimum n → ⊥)
    → below_min current minimum version min_version
      ≡ ltb_ℤ (compare_version_strings version min_version) (pos 0)
    → (below_min current minimum version min_version ≡ true)
      ↔ IsBelow current minimum version min_version
by_versions current minimum version min_version unknown by = (
  λ h. inr (unknown, ground arith),
  λ h. elim h [ inl (m, n, a, b, _, _) ↦ absurd (unknown m n a b) | inr (_, h) ↦ ground arith ],
)

below_min-IsBelow :
    (current minimum : Option AppRelease) (version min_version : String)
    → (below_min current minimum version min_version ≡ true)
      ↔ IsBelow current minimum version min_version
below_min-IsBelow none minimum version min_version =
    by_versions none minimum version min_version (λ m n a b. a) refl
below_min-IsBelow (some c) none version min_version =
    by_versions (some c) none version min_version (λ m n a b. b) refl
below_min-IsBelow (some c) (some d) version min_version =
    elim (Bool-cases (eq_ℤ c.build_number (pos 0))) [
      | inl e ↦
          by_versions (some c) (some d) version min_version
            (λ m n a b. a.1 (sym a.0 ∙ (is_zero-eq c.build_number).0 e)) (ground arith)
      | inr e ↦ elim (Bool-cases (eq_ℤ d.build_number (pos 0))) [
        | inl f ↦
            by_versions (some c) (some d) version min_version
              (λ m n a b. b.1 (sym b.0 ∙ (is_zero-eq d.build_number).0 f)) (ground arith)
        | inr f ↦ by_builds c d version min_version e f
      ]
    ]

-- A client's version is no longer supported: a least version is named, and the client's is below it.
abbrev pub IsUnsupported : Server → String → String → String → String → Type 0
IsUnsupported s app_id platform version min_version =
    (min_version ≢ "")
    × IsBelow (find_release_locked s app_id platform version)
        (find_release_locked s app_id platform min_version) version min_version

pub is_below-IsUnsupported :
    (s : Server) (app_id platform version min_version : String)
    → (is_below_min_supported_locked s app_id platform version min_version ≡ true)
      ↔ IsUnsupported s app_id platform version min_version
unfolding is_below_min_supported_locked
is_below-IsUnsupported s app_id platform version min_version =
    let below =
      below_min-IsBelow (find_release_locked s app_id platform version)
        (find_release_locked s app_id platform min_version) version min_version in
    elim (Bool-cases (is_empty min_version)) [
      | inl e ↦ (
        λ h. absurd (ground (arith, e)),
        λ (named, h). absurd (named ((eq_iff min_version "").0 e)),
      )
      | inr e ↦ (
        λ h. ((λ blank. ground (arith, e, eq_iff min_version "")), below.0 (rw e at h)),
        λ (named, h). rw e (below.1 h),
      )
    ]
