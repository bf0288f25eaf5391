-- ===== src/RateLimit.antt =====
-- The limit on failed attempts (internal/licensecore/server.go: isRateLimitedLocked and below), and
-- the one-time challenges that share its handler are in Challenge.antt.
pub mod Window
use license_guard.Base.{
  ℕ, suc, ℤ, pos, negsuc, sub_ℕ, ltb_ℤ, leb_ℤ, String, List, [], ◌∷◌, map, Bool, true, false, ◌||◌,
  not, Option, none, some, lookup, insert, delete, if◌then◌else◌, to_lower, trim_space, join,
  is_empty, ◌==◌,
}
use license_guard.Types.{Time}
use license_guard.Server.{Server, RateLimitState, Env, Request}

-- now.Sub(start) >= window, for times less than 292 years apart.
abbrev pub window_passed : ℤ → Time → Time → Bool
window_passed window start now = leb_ℤ window (sub_ℕ now start)

-- `s.rateLimitFailures <= 0 || s.rateLimitWindow <= 0`
abbrev pub limit_off : Server → Bool
limit_off s = leb_ℤ s.rate_limit_failures (pos 0) || leb_ℤ s.rate_limit_window (pos 0)

-- `state, ok := s.rateLimits[key]`, if its window has not passed.
unfoldable pub open_window : Server → String → Time → Option RateLimitState
open_window s key now = elim (lookup key s.rate_limits) [
  | none ↦ none
  | some state ↦
      if window_passed s.rate_limit_window state.window_start now then none else some state
]

-- isRateLimitedLocked
unfoldable pub is_rate_limited_locked : Server → String → Time → Bool
unfolding open_window
is_rate_limited_locked s key now = if limit_off s then false else elim (open_window s key now) [
  | none ↦ false
  | some state ↦ leb_ℤ s.rate_limit_failures state.failures
]

abbrev pub add_one : ℤ → ℤ
add_one (pos n) = pos (suc n)
add_one (negsuc n) = sub_ℕ 0 n

-- `state.Failures++`, on the open window or on a new one
unfoldable pub count_failure : Option RateLimitState → Time → RateLimitState
count_failure none now = record { window_start = now; failures = pos 1 }
count_failure (some state) now = record state { failures = add_one state.failures }

-- recordRateLimitFailureLocked
unfoldable pub record_rate_limit_failure_locked : Server → String → Time → Server
unfolding open_window count_failure
record_rate_limit_failure_locked s key now = if limit_off s then s else record s {
  rate_limits = insert key (count_failure (open_window s key now) now) s.rate_limits;
}

-- resetRateLimitLocked
unfoldable pub reset_rate_limit_locked : Server → String → Server
reset_rate_limit_locked s key = record s { rate_limits = delete key s.rate_limits }

clean_part : String → String
clean_part part =
    let cleaned = to_lower (trim_space part) in if is_empty cleaned then "-" else cleaned

-- rateLimitKey
unfoldable pub rate_limit_key : List String → String
unfolding clean_part
rate_limit_key parts = join (map clean_part parts) "|"

-- clientAddr
unfoldable pub client_addr : Env → Request → String
client_addr env r = elim (env.split_host_port (trim_space r.remote_addr)) [
  | none ↦ trim_space r.remote_addr
  | some host ↦ if is_empty host then trim_space r.remote_addr else host
]
