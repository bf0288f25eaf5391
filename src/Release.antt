-- ===== src/Release.antt =====
-- Releases of internal/licensecore/server.go: the release that a client runs, the latest one, staged
-- rollouts and the offer of an update.
pub mod Version
pub mod Search
pub mod Rollout
pub mod Support
pub mod Offer
use license_guard.Base.{
  ℕ, ◌%◌, ℤ, pos, negsuc, ltb_ℤ, leb_ℤ, String, List, [], ◌∷◌, Bool, true, false, ◌||◌, ◌&&◌, not,
  Option, none, some, if◌then◌else◌, is_empty, ◌==◌, concat, filter_by, sort_slice, head?, pos_part,
  neg_part, eqb,
}
use license_guard.Types.{AppRelease, UpdateInfo, after}
use license_guard.Server.{Server, Env}
use Version.{compare_version_strings}

abbrev pub eq_ℤ : ℤ → ℤ → Bool
eq_ℤ a b = eqb (pos_part a) (pos_part b) && eqb (neg_part a) (neg_part b)

abbrev pub is_release : String → String → String → AppRelease → Bool
is_release app_id platform version r =
    r.app_id == app_id && r.platform == platform && r.version == version

-- The loop of findReleaseLocked: the first match that is blocked, else the first match.
unfoldable pub release_loop :
    String → String → String → Option AppRelease → List AppRelease → Option AppRelease
release_loop app_id platform version fallback [] = fallback
release_loop app_id platform version fallback (r ∷ rs) =
    let rest =
      release_loop app_id platform version
        (if is_release app_id platform version r
          then (elim fallback [ none ↦ some r | some f ↦ some f ])
          else fallback)
        rs in
    if is_release app_id platform version r && r.status == "blocked" then some r else rest

-- findReleaseLocked
unfoldable pub find_release_locked : Server → String → String → String → Option AppRelease
unfolding release_loop
find_release_locked s app_id platform version =
    release_loop app_id platform version none s.contents.releases

-- The order of latestReleaseLocked: by build number, then by time, the greatest first.
abbrev pub newer : AppRelease → AppRelease → Bool
newer a b =
    if eq_ℤ a.build_number b.build_number
    then after a.created_at b.created_at
    else ltb_ℤ b.build_number a.build_number

abbrev pub is_offered : String → String → AppRelease → Bool
is_offered app_id platform r = r.app_id == app_id && r.platform == platform && r.status == "active"

-- latestReleaseLocked
unfoldable pub latest_release_locked : Server → String → String → Option AppRelease
latest_release_locked s app_id platform =
    head? (sort_slice newer (filter_by (is_offered app_id platform) s.contents.releases))

-- isBelowMinSupportedLocked, on the releases that it has found
abbrev pub below_min : Option AppRelease → Option AppRelease → String → String → Bool
below_min (some current) (some minimum) current_version min_version =
    if not (eq_ℤ current.build_number (pos 0)) && not (eq_ℤ minimum.build_number (pos 0))
    then ltb_ℤ current.build_number minimum.build_number
    else ltb_ℤ (compare_version_strings current_version min_version) (pos 0)
below_min _ _ current_version min_version =
    ltb_ℤ (compare_version_strings current_version min_version) (pos 0)

-- isBelowMinSupportedLocked
unfoldable pub is_below_min_supported_locked : Server → String → String → String → String → Bool
is_below_min_supported_locked s app_id platform current_version min_version =
    if is_empty min_version
    then false
    else below_min (find_release_locked s app_id platform current_version)
        (find_release_locked s app_id platform min_version) current_version min_version

-- clampPercent
unfoldable pub clamp_percent : ℤ → ℤ
clamp_percent value =
    if ltb_ℤ value (pos 0) then pos 0 else if ltb_ℤ (pos 100) value then pos 100 else value

-- releaseInRollout
unfoldable pub release_in_rollout : Env → String → String → String → String → ℤ → Bool
unfolding clamp_percent
release_in_rollout env app_id platform release_id device_id rollout_percent =
    let percent = clamp_percent rollout_percent in
    let key = concat (app_id ∷ "|" ∷ platform ∷ "|" ∷ release_id ∷ "|" ∷ device_id ∷ []) in
    if leb_ℤ (pos 100) percent
    then true
    else if leb_ℤ percent (pos 0) || is_empty device_id
    then false
    else ltb_ℤ (pos (env.crc32 key % 100)) percent

-- updateInfoLocked, once the latest release is found
unfoldable pub offer :
    Env → Server → String → String → String → String → AppRelease → Option UpdateInfo
offer env s app_id platform current_version device_id latest =
    let required =
      latest.mandatory
      || is_below_min_supported_locked s app_id platform current_version
          latest.min_supported_version in
    if is_empty latest.version || latest.version == current_version
    then none
    else if not required
        && not (release_in_rollout env app_id platform latest.id device_id latest.rollout_percent)
    then none
    else some (record {
      available = true;
      required = required;
      latest_version = latest.version;
      download_url = latest.download_url;
      package_sha256 = latest.package_sha256;
      release_notes = latest.release_notes;
    })

-- updateInfoLocked
unfoldable pub update_info_locked :
    Env → Server → String → String → String → String → Option UpdateInfo
unfolding offer
update_info_locked env s app_id platform current_version device_id =
    if is_empty current_version then none else elim (latest_release_locked s app_id platform) [
      | none ↦ none
      | some latest ↦ offer env s app_id platform current_version device_id latest
    ]
