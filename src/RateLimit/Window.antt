-- ===== src/RateLimit/Window.antt =====
-- What the limit on failed attempts (internal/licensecore/server.go) does over a series of them.
use license_guard.Base.{
  ℕ, suc, ◌+◌, ℤ, pos, leb_ℤ, String, Dict, List, [], ◌∷◌, true, false, none, some, lookup, insert,
  lookup-insert, lookup-insert_self, if◌then◌else◌, ◌==◌, ◌≡◌, ◌≢◌, refl, arith, inl, inr,
  Bool-cases, length, All, ap, ◌∙◌, eq_iff,
}
use native.Mathlib.Nat.{add-zero, add-suc, suc-add}
use license_guard.Types.{Time}
use license_guard.Server.{Server, RateLimitState}
use license_guard.RateLimit.{
  limit_off, window_passed, open_window, is_rate_limited_locked, count_failure,
  record_rate_limit_failure_locked,
}

-- The failures that one client makes, one after another.
pub record_failures : Server → String → List Time → Server
record_failures s key [] = s
record_failures s key (t ∷ ts) = record_failures (record_rate_limit_failure_locked s key t) key ts

-- The times that lie in the window which `start` opens.
abbrev pub InWindow : ℤ → Time → List Time → Type 0
InWindow window start = All (λ t. window_passed window start t ≡ false)

-- The window of a key is open since `start`, with `n` failures, and the limit is on.
pub record IsOpen (s : Server) (key : String) (start : Time) (n : ℕ) : Type 0 where
  pub limited : limit_off s ≡ false
  pub entry : lookup key s.rate_limits ≡ some (record { window_start = start; failures = pos n })

open_window-IsOpen :
    (s : Server) (key : String) (start now : Time) (n : ℕ)
    → IsOpen s key start n
    → window_passed s.rate_limit_window start now ≡ false
    → open_window s key now ≡ some (record { window_start = start; failures = pos n })
unfolding open_window
open_window-IsOpen s key start now n o inside = rw (o.entry, open_window) (rw inside)

record-eq :
    (s : Server) (key : String) (now : Time)
    → limit_off s ≡ false
    → record_rate_limit_failure_locked s key now ≡ record s {
      rate_limits = insert key (count_failure (open_window s key now) now) s.rate_limits;
    }
unfolding record_rate_limit_failure_locked
record-eq s key now on = ground arith

record-off :
    (s : Server) (key : String) (now : Time)
    → limit_off s ≡ true
    → record_rate_limit_failure_locked s key now ≡ s
unfolding record_rate_limit_failure_locked
record-off s key now off = rw off

==-ne : (s t : String) → s ≢ t → (s == t) ≡ false
==-ne s t ne = ground (arith, eq_iff s t)

one-add : (n : ℕ) → 1 + n ≡ suc n
one-add n = omega arith

record-IsOpen :
    (s : Server) (key : String) (start now : Time) (n : ℕ)
    → IsOpen s key start n
    → window_passed s.rate_limit_window start now ≡ false
    → IsOpen (record_rate_limit_failure_locked s key now) key start (suc n)
unfolding count_failure
record-IsOpen s key start now n o inside = rw (record-eq s key now o.limited) (
    rw (open_window-IsOpen s key start now n o inside)
      (record { limited = o.limited; entry = lookup-insert_self key _ s.rate_limits }))

first-IsOpen :
    (s : Server) (key : String) (start : Time)
    → limit_off s ≡ false
    → open_window s key start ≡ none
    → IsOpen (record_rate_limit_failure_locked s key start) key start 1
unfolding count_failure
first-IsOpen s key start on closed =
    rw (record-eq s key start on)
      (rw closed (record { limited = on; entry = lookup-insert_self key _ s.rate_limits }))

-- The two settings of the limit.
abbrev SameLimit : Server → Server → Type 0
SameLimit s t =
    (t.rate_limit_window ≡ s.rate_limit_window) × (t.rate_limit_failures ≡ s.rate_limit_failures)

record-SameLimit :
    (s : Server) (key : String) (now : Time)
    → SameLimit s (record_rate_limit_failure_locked s key now)
unfolding record_rate_limit_failure_locked
record-SameLimit s key now = ground arith

record_failures-SameLimit :
    (s : Server) (key : String) (ts : List Time) → SameLimit s (record_failures s key ts)
unfolding record_failures
record_failures-SameLimit s key [] = (refl, refl)
record_failures-SameLimit s key (t ∷ ts) =
    let (w, f) = record_failures-SameLimit (record_rate_limit_failure_locked s key t) key ts in
    let (w', f') = record-SameLimit s key t in (w ∙ w', f ∙ f')

record_failures-IsOpen :
    (s : Server) (key : String) (start : Time) (n : ℕ) (ts : List Time)
    → IsOpen s key start n
    → InWindow s.rate_limit_window start ts
    → IsOpen (record_failures s key ts) key start (n + length ts)
unfolding record_failures
record_failures-IsOpen s key start n [] o inside = rw (add-zero n) o
record_failures-IsOpen s key start n (t ∷ ts) o inside =
    rw (add-suc n (length ts), ← suc-add n (length ts))
      (record_failures-IsOpen (record_rate_limit_failure_locked s key t) key start (suc n) ts
        (record-IsOpen s key start t n o inside.0) (rw ((record-SameLimit s key t).0) inside.1))

IsOpen-limited :
    (s : Server) (key : String) (start now : Time) (n : ℕ)
    → IsOpen s key start n
    → is_rate_limited_locked s key now ≡ (
        if window_passed s.rate_limit_window start now
        then false
        else leb_ℤ s.rate_limit_failures (pos n))
unfolding is_rate_limited_locked
IsOpen-limited s key start now n o =
    rw (o.entry, open_window)
      (rw o.limited (elim (Bool-cases (window_passed s.rate_limit_window start now)) [
        | inl e ↦ rw e
        | inr e ↦ rw e
      ]))

-- Where the limit is on and a key has no open window, failures at the times `start` and `ts`, all in
-- the window that `start` opens, limit the key at a time `now` exactly if `now` lies in that window
-- too and the failures are as many as the limit.
pub record_failures-limited :
    (s : Server) (key : String) (start now : Time) (ts : List Time)
    → limit_off s ≡ false
    → open_window s key start ≡ none
    → InWindow s.rate_limit_window start ts
    → is_rate_limited_locked (record_failures s key (start ∷ ts)) key now ≡ (
        if window_passed s.rate_limit_window start now
        then false
        else leb_ℤ s.rate_limit_failures (pos (suc (length ts))))
unfolding record_failures
record_failures-limited s key start now ts on closed inside =
    let first = record_rate_limit_failure_locked s key start in
    let (w, f) = record_failures-SameLimit s key (start ∷ ts) in
    IsOpen-limited (record_failures first key ts) key start now (1 + length ts) (
      record_failures-IsOpen first key start 1 ts (first-IsOpen s key start on closed)
        (rw ((record-SameLimit s key start).0) inside))
    ∙ rw (w, f, one-add (length ts))

limited-lookup :
    (s : Server) (m : Dict RateLimitState) (other : String) (now : Time)
    → lookup other m ≡ lookup other s.rate_limits
    → is_rate_limited_locked (record s { rate_limits = m }) other now
      ≡ is_rate_limited_locked s other now
unfolding is_rate_limited_locked open_window
limited-lookup s m other now h = rw (h, open_window)

record-other :
    (s : Server) (key other : String) (now t : Time)
    → key ≢ other
    → is_rate_limited_locked (record_rate_limit_failure_locked s key t) other now
      ≡ is_rate_limited_locked s other now
record-other s key other now t ne = elim (Bool-cases (limit_off s)) [
  | inl off ↦ ap (λ q. is_rate_limited_locked q other now) (record-off s key t off)
  | inr on ↦
      ap (λ q. is_rate_limited_locked q other now) (record-eq s key t on)
      ∙ limited-lookup s _ other now (
          rw (lookup-insert key other (count_failure (open_window s key t) t) s.rate_limits)
            (rw (==-ne key other ne)))
]

-- The failures of one key neither limit another key nor free it.
pub record_failures-other :
    (s : Server) (key other : String) (now : Time) (ts : List Time)
    → key ≢ other
    → is_rate_limited_locked (record_failures s key ts) other now
      ≡ is_rate_limited_locked s other now
unfolding record_failures
record_failures-other s key other now [] ne = refl
record_failures-other s key other now (t ∷ ts) ne =
    record_failures-other (record_rate_limit_failure_locked s key t) key other now ts ne
    ∙ record-other s key other now t ne
