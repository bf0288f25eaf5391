-- ===== src/Release/Offer.antt =====
-- When a client is offered an update, and which (internal/licensecore/server.go: updateInfoLocked,
-- releaseInRollout).
use license_guard.Base.{
  ◌+◌, ◌%◌, ℤ, pos, ◌≤ℤ◌, String, [], ◌∷◌, true, some, concat, is_empty, ◌≡◌, ◌≢◌, ◌⊎◌, ◌↔◌, refl,
  sym, ◌∙◌, arith, Option-cases, inl, inr, eq_iff, ◌||◌, ◌==◌, Bool, false,
}
use license_guard.Types.{AppRelease, UpdateInfo}
use license_guard.Server.{Server, Env}
use license_guard.Release.{
  release_in_rollout, clamp_percent, update_info_locked, offer, latest_release_locked,
  is_below_min_supported_locked,
}
use license_guard.Release.Search.{IsNewest, latest_release_locked-IsNewest}
use license_guard.Release.Support.{IsUnsupported, is_below-IsUnsupported}

-- A device is in the staged rollout of a release: at 100 percent or more each device is, and below that
-- a device with an id whose share, by its hash, is under the percentage.
abbrev pub IsInRollout : Env → String → String → String → String → ℤ → Type 0
IsInRollout env app_id platform release_id device_id percent =
    (pos 100 ≤ℤ percent)
    ⊎ ((device_id ≢ "")
        × (pos (
              env.crc32 (concat (app_id ∷ "|" ∷ platform ∷ "|" ∷ release_id ∷ "|" ∷ device_id ∷ []))
                % 100
              + 1)
            ≤ℤ percent))

release_in_rollout-IsInRollout :
    (env : Env) (app_id platform release_id device_id : String) (percent : ℤ)
    → (release_in_rollout env app_id platform release_id device_id percent ≡ true)
      ↔ IsInRollout env app_id platform release_id device_id percent
unfolding release_in_rollout clamp_percent
release_in_rollout-IsInRollout env app_id platform release_id device_id percent =
    (λ h. ground (arith, eq_iff device_id ""), λ h. ground (arith, eq_iff device_id ""))

-- What an update that is offered says, and when it is offered.
pub record IsOffer (env : Env) (s : Server) (app_id platform version device_id : String)
    (u : UpdateInfo) : Type 0 where
  pub latest : AppRelease
  pub found : latest_release_locked s app_id platform ≡ some latest
  pub newest : IsNewest s.contents.releases app_id platform latest
  pub named : version ≢ ""
  pub latest_named : latest.version ≢ ""
  pub differs : latest.version ≢ version
  pub is_required : (u.required ≡ true) ↔ (
      (latest.mandatory ≡ true)
      ⊎ IsUnsupported s app_id platform version latest.min_supported_version)
  pub staged :
      (u.required ≡ true)
      ⊎ IsInRollout env app_id platform latest.id device_id latest.rollout_percent
  pub says : u ≡ record {
    available = true;
    required = u.required;
    latest_version = latest.version;
    download_url = latest.download_url;
    package_sha256 = latest.package_sha256;
    release_notes = latest.release_notes;
  }

either_iff :
    (r a b : Bool) {P : Type 0} → r ≡ (a || b) → (b ≡ true) ↔ P → (r ≡ true) ↔ ((a ≡ true) ⊎ P)
either_iff r true b e p = ((λ h. inl refl), λ h. e)
either_iff r false b e p = (
  (λ h. inr (p.0 (sym e ∙ h))),
  λ h. elim h [ inl x ↦ absurd (ground arith) | inr x ↦ e ∙ p.1 x ],
)

equal_of_iff : (a b : Bool) → (a ≡ true) ↔ (b ≡ true) → a ≡ b
equal_of_iff true b h = sym (h.0 refl)
equal_of_iff false true h = h.1 refl
equal_of_iff false false h = refl

module _ (env : Env) (s : Server) (app_id platform version device_id : String) where
  -- What `offer` tests and makes.
  record Offered (latest : AppRelease) (u : UpdateInfo) : Type 0 where
    pub named : is_empty latest.version ≡ false
    pub differs : (latest.version == version) ≡ false
    pub required : u.required ≡ (
        latest.mandatory
        || is_below_min_supported_locked s app_id platform version latest.min_supported_version)
    pub staged :
        (u.required
          || release_in_rollout env app_id platform latest.id device_id latest.rollout_percent)
        ≡ true
    pub says : u ≡ record {
      available = true;
      required = u.required;
      latest_version = latest.version;
      download_url = latest.download_url;
      package_sha256 = latest.package_sha256;
      release_notes = latest.release_notes;
    }

  offer-Offered :
      (latest : AppRelease) (u : UpdateInfo)
      → offer env s app_id platform version device_id latest ≡ some u
      → Offered latest u
  unfolding offer
  offer-Offered latest u h = record {
    named = ground arith;
    differs = ground arith;
    required = ground arith;
    staged = ground arith;
    says = ground arith;
  }

  Offered-offer :
      (latest : AppRelease) (u : UpdateInfo)
      → Offered latest u
      → offer env s app_id platform version device_id latest ≡ some u
  unfolding offer
  Offered-offer latest u h = ground (arith, h.named, h.differs, h.required, h.staged, sym h.says)

  required_iff :
      (latest : AppRelease) (u : UpdateInfo)
      → u.required ≡ (
          latest.mandatory
          || is_below_min_supported_locked s app_id platform version latest.min_supported_version)
      → (u.required ≡ true) ↔ (
          (latest.mandatory ≡ true)
          ⊎ IsUnsupported s app_id platform version latest.min_supported_version)
  required_iff latest u e =
      either_iff u.required latest.mandatory _ e
        (is_below-IsUnsupported s app_id platform version latest.min_supported_version)

  staged_iff :
      (latest : AppRelease) (u : UpdateInfo)
      → ((u.required
            || release_in_rollout env app_id platform latest.id device_id latest.rollout_percent)
          ≡ true)
        ↔ ((u.required ≡ true)
            ⊎ IsInRollout env app_id platform latest.id device_id latest.rollout_percent)
  staged_iff latest u =
      either_iff _ u.required
        (release_in_rollout env app_id platform latest.id device_id latest.rollout_percent) refl
        (release_in_rollout-IsInRollout env app_id platform latest.id device_id
          latest.rollout_percent)

  Offered-IsOffer :
      (latest : AppRelease) (u : UpdateInfo)
      → latest_release_locked s app_id platform ≡ some latest
      → version ≢ ""
      → Offered latest u
      → IsOffer env s app_id platform version device_id u
  Offered-IsOffer latest u found named h = record {
    latest = latest;
    found = found;
    newest = latest_release_locked-IsNewest s app_id platform found;
    named = named;
    latest_named = λ e. ground (arith, h.named, eq_iff latest.version "");
    differs = λ e. ground (arith, h.differs, eq_iff latest.version version);
    is_required = required_iff latest u h.required;
    staged = (staged_iff latest u).0 h.staged;
    says = h.says;
  }

  IsOffer-Offered :
      (u : UpdateInfo) (h : IsOffer env s app_id platform version device_id u) → Offered h.latest u
  IsOffer-Offered u h =
      let below =
        is_below_min_supported_locked s app_id platform version h.latest.min_supported_version in
      let must : (h.latest.mandatory || below) ≡ true ↔ (
          (h.latest.mandatory ≡ true)
          ⊎ IsUnsupported s app_id platform version h.latest.min_supported_version) =
        either_iff _ h.latest.mandatory below refl
          (is_below-IsUnsupported s app_id platform version h.latest.min_supported_version) in
      record {
        named = ground (arith, h.latest_named, eq_iff h.latest.version "");
        differs = ground (arith, h.differs, eq_iff h.latest.version version);
        required =
            equal_of_iff u.required (h.latest.mandatory || below)
              ((λ x. must.1 (h.is_required.0 x)), λ x. h.is_required.1 (must.0 x));
        staged = (staged_iff h.latest u).1 h.staged;
        says = h.says;
      }

  -- An update is offered exactly if the client names its version, the newest active release for its app
  -- and platform has another one, and the client must take that release or its device is in the staged
  -- rollout; the update is that release. The client must take it exactly if the release is mandatory, or
  -- names a least version that the client's is below: by the build numbers of the stored releases of the
  -- two, if both have one other than zero, and by the versions otherwise.
  pub update_info_locked-IsOffer :
      (u : UpdateInfo)
      → (update_info_locked env s app_id platform version device_id ≡ some u)
        ↔ IsOffer env s app_id platform version device_id u
  unfolding update_info_locked
  update_info_locked-IsOffer u = (only_if, if_so)
    where
      only_if :
          update_info_locked env s app_id platform version device_id ≡ some u
          → IsOffer env s app_id platform version device_id u
      only_if h = elim (Option-cases (latest_release_locked s app_id platform)) [
        | inl e ↦ absurd (ground (arith, e))
        | inr (latest, e) ↦
            Offered-IsOffer latest u e (λ blank. ground (arith, h, (eq_iff version "").1 blank))
              (offer-Offered latest u (ground (arith, e)))
      ]

      if_so :
          IsOffer env s app_id platform version device_id u
          → update_info_locked env s app_id platform version device_id ≡ some u
      if_so h = ground (
        arith,
        h.found,
        h.named,
        eq_iff version "",
        Offered-offer h.latest u (IsOffer-Offered u h),
      )
