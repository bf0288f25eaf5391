-- ===== src/Accounts/Sessions.antt =====
-- The sessions of administrators (internal/licensecore/server.go): from a login to a change of the password.
use license_guard.Base.{
  ◌+◌, ◌*◌, String, [], ◌∷◌, Bool, true, false, not, ◌&&◌, Option, none, some, Dict, lookup, retain,
  ◌≡◌, ◌≢◌, refl, sym, ◌∙◌, ap, subst, arith, Bool-cases, Option-cases, inl, inr, eq_iff, eq_refl,
  is_empty, concat-head, to_lower, trim_space, ◌||◌, ◌==◌, if◌then◌else◌, concat,
  lookup-retain_holds, lookup-retain_all, lookup-insert_self, Result, ok, err,
}
use license_guard.Types.{Admin, Time, after, second}
use license_guard.Server.{Server, Env, Request, AdminSession, save_locked}
use license_guard.Audit.{audit_locked}
use license_guard.RateLimit.{
  is_rate_limited_locked, rate_limit_key, client_addr, reset_rate_limit_locked,
}
use license_guard.Accounts.{
  logged_in, done, Auth, refused, admin, bearer_token, open_session, require_admin, saved_then,
  log_in, start_session, handle_admin_login, find_admin_by_account_locked,
  invalidate_admin_sessions_except_locked, change_password, store_password,
  handle_admin_password_change,
}

abbrev session_of : Option AdminSession → Time → Auth
session_of none now = refused "invalid admin token"
session_of (some session) now =
    if after now session.expires_at then refused "invalid admin token" else admin session.admin_id

-- Who a request is from depends on what is stored under its token alone.
require_admin-eq :
    (env : Env) (s : Server) (r : Request)
    → (require_admin env s r).1 ≡ (
        if is_empty (bearer_token r)
        then refused "missing admin token"
        else session_of (lookup (bearer_token r) s.admin_sessions) (env.time 337))
unfolding require_admin open_session
require_admin-eq env s r = ground arith

change_password-sessions :
    (env : Env) (s : Server) (r : Request) (admin_id hash : String)
    → (save_locked env (change_password env s r admin_id hash)).0.admin_sessions
      ≡ retain
          (λ token session. not (session.admin_id == admin_id && not (token == bearer_token r)))
          s.admin_sessions
unfolding save_locked change_password audit_locked invalidate_admin_sessions_except_locked
change_password-sessions env s r admin_id hash = refl

store_password-done :
    (env : Env) (s : Server) (r : Request) (admin_id : String) (hash : Result String)
    → (store_password env s r admin_id hash).1 ≡ done
    → (store_password env s r admin_id hash).0.admin_sessions
      ≡ retain
          (λ token session. not (session.admin_id == admin_id && not (token == bearer_token r)))
          s.admin_sessions
unfolding store_password saved_then
store_password-done env s r admin_id (err e) h = absurd (ground arith)
store_password-done env s r admin_id (ok hash) h =
    elim (Option-cases (save_locked env (change_password env s r admin_id hash)).1) [
      | inl e ↦ rw e (change_password-sessions env s r admin_id hash)
      | inr (m, e) ↦ rw e (change_password-sessions env s r admin_id hash)
    ]

handle_admin_password_change-done :
    (env : Env) (s : Server) (r : Request) (admin_id current_password new_password : String)
    → let out = handle_admin_password_change env s r admin_id current_password new_password in
      out.1 ≡ done → (out ≡ store_password env s r admin_id (env.hash_password new_password))
unfolding handle_admin_password_change
handle_admin_password_change-done env s r admin_id current_password new_password h = ground arith

admin-session :
    (sessions : Dict AdminSession) (token : String) (now : Time) {id : String}
    → session_of (lookup token sessions) now ≡ admin id
    → (session : AdminSession) × (lookup token sessions ≡ some session) × (session.admin_id ≡ id)
admin-session sessions token now h = elim (Option-cases (lookup token sessions)) [
  | inl e ↦ absurd (ground (arith, e))
  | inr (session, e) ↦ (session, e, ground (arith, e))
]

-- The administrator's other sessions do not pass the sweep.
swept :
    (sessions : Dict AdminSession) (token keep id : String) (now : Time)
    → token ≢ keep
    → session_of
        (lookup token
          (retain (λ token session. not (session.admin_id == id && not (token == keep))) sessions))
        now
      ≢ admin id
swept sessions token keep id now ne h =
    let keeps : String → AdminSession → Bool =
      λ token session. not (session.admin_id == id && not (token == keep)) in
    let (session, found, own) = admin-session (retain keeps sessions) token now h in
    ground (
      arith,
      lookup-retain_holds keeps token sessions found,
      (eq_iff session.admin_id id).1 own,
      eq_iff token keep,
    )

-- In the state that a confirmed change of password leaves, no request with another token is taken for the
-- administrator, whatever the clock says then; and the request that changed the password keeps its
-- session: it is answered as it would have been before.
pub handle_admin_password_change-sessions :
    (env : Env) (s : Server) (r : Request) (admin_id current_password new_password : String)
    → (handle_admin_password_change env s r admin_id current_password new_password).1 ≡ done
    → (later : Env) (other : Request) → bearer_token other ≢ bearer_token r
    → let s' = (handle_admin_password_change env s r admin_id current_password new_password).0 in
      ((require_admin later s' other).1 ≢ admin admin_id)
      × ((require_admin later s' r).1 ≡ (require_admin later s r).1)
handle_admin_password_change-sessions env s r admin_id current_password new_password h later other
      ne =
    let s' = (handle_admin_password_change env s r admin_id current_password new_password).0 in
    let same = handle_admin_password_change-done env s r admin_id current_password new_password h in
    let sessions =
      ap (λ p. p.0.admin_sessions) same
      ∙ store_password-done env s r admin_id (env.hash_password new_password)
          (ap (λ p. p.1) (sym same) ∙ h) in
    (
      λ k. not_admin s' sessions (sym (require_admin-eq later s' other) ∙ k),
      require_admin-eq later s' r
          ∙ ap
              (λ found.
                if is_empty (bearer_token r)
                then refused "missing admin token"
                else session_of found (later.time 337))
              (ap (lookup (bearer_token r)) sessions ∙ kept)
          ∙ sym (require_admin-eq later s r),
    )
  where
    keeps : String → AdminSession → Bool
    keeps token session = not (session.admin_id == admin_id && not (token == bearer_token r))

    kept :
        lookup (bearer_token r) (retain keeps s.admin_sessions)
        ≡ lookup (bearer_token r) s.admin_sessions
    kept =
        lookup-retain_all keeps (bearer_token r) s.admin_sessions
          (λ session. ground (arith, eq_refl (bearer_token r)))

    not_admin :
        (s' : Server)
        → s'.admin_sessions ≡ retain keeps s.admin_sessions
        → (if is_empty (bearer_token other)
            then refused "missing admin token"
            else session_of (lookup (bearer_token other) s'.admin_sessions) (later.time 337))
          ≡ admin admin_id
        → ⊥
    not_admin s' e k = elim (Bool-cases (is_empty (bearer_token other))) [
      | inl f ↦ absurd (ground (arith, f))
      | inr f ↦
          swept s.admin_sessions (bearer_token other) (bearer_token r) admin_id (later.time 337) ne
            (rw (e, f) at k)
    ]

-- What a login rests on.
pub record IsLogin (env : Env) (s : Server) (r : Request) (account password : String) (a : Admin)
    : Type 0 where
  pub found : find_admin_by_account_locked s (to_lower (trim_space account)) ≡ some a
  pub active : a.status ≡ "active"
  pub knows : env.compare_password a.password_hash password ≡ true
  pub not_limited :
      is_rate_limited_locked s
        (rate_limit_key ("admin_login" ∷ to_lower (trim_space account) ∷ client_addr env r ∷ []))
        (env.time 292)
      ≡ false

-- What a started session leaves.
abbrev Started : Server → Admin → String → Time → Type 0
Started s' a token t =
    (lookup token s'.admin_sessions ≡ some (record { admin_id = a.id; expires_at = t }))
    × (is_empty token ≡ false)

logged_in-injective :
    {token token' : String} {t t' : Time} {a a' : Admin}
    → logged_in token t a ≡ logged_in token' t' a'
    → (token ≡ token') × (t ≡ t') × (a ≡ a')
logged_in-injective h = ground arith

start_session-Started :
    (env : Env) (s : Server) (r : Request) (a b : Admin) (rate_key token : String) (t : Time)
    → (start_session env s r b rate_key).1 ≡ logged_in token t a
    → (b ≡ a) × Started (start_session env s r b rate_key).0 a token t
unfolding start_session audit_locked reset_rate_limit_locked
start_session-Started env s r a b rate_key token t h =
    let (e, e', same) = logged_in-injective h in
    rw (← e) (
      rw (← e') (
        rw (← same) (
          refl,
          (
            lookup-insert_self (concat ("adm_" ∷ env.random_string 314 32 ∷ []))
                (record { admin_id = b.id; expires_at = env.time 315 + 12 * 3600 * second })
                s.admin_sessions,
            concat-head "adm_" (env.random_string 314 32 ∷ []) refl,
          ),
        )))

log_in-Started :
    (env : Env) (s : Server) (r : Request) (found : Option Admin) (password rate_key token : String)
    (t : Time) (a : Admin)
    → (log_in env s r found password rate_key).1 ≡ logged_in token t a
    → (found ≡ some a)
      × (a.status ≡ "active")
      × (env.compare_password a.password_hash password ≡ true)
      × Started (log_in env s r found password rate_key).0 a token t
unfolding log_in
log_in-Started env s r none password rate_key token t a h = absurd (ground arith)
log_in-Started env s r (some b) password rate_key token t a h =
    elim (Bool-cases
      (not (b.status == "active") || not (env.compare_password b.password_hash password))) [
        | inl e ↦ absurd (ground (arith, e))
        | inr e ↦
            let (same, started) = start_session-Started env s r a b rate_key token t (rw e at h) in
            (
              ap some same,
              subst (λ x. x.status ≡ "active") same (ground (arith, e, eq_iff b.status "active")),
              subst (λ x. env.compare_password x.password_hash password ≡ true) same
                  (ground (arith, e)),
              rw e started,
            )
      ]

-- A login succeeds only if the account and its address are not limited, and the account is found, is
-- active and has the password. Its token is taken for that administrator, and for no other one, up to
-- the time that the reply names, and is refused afterwards.
pub handle_admin_login-session :
    (env : Env) (others : Server → Server) (s : Server) (r : Request)
    (account password token : String) (t : Time) (a : Admin)
    → (handle_admin_login env others s r account password).1 ≡ logged_in token t a
    → (later : Env) (r' : Request) → bearer_token r' ≡ token
    → IsLogin env s r account password a
      × ((require_admin later (handle_admin_login env others s r account password).0 r').1
          ≡ (if after (later.time 337) t then refused "invalid admin token" else admin a.id))
unfolding handle_admin_login
handle_admin_login-session env others s r account password token t a h later r' same =
    let name = to_lower (trim_space account) in
    let rate_key = rate_limit_key ("admin_login" ∷ name ∷ client_addr env r ∷ []) in
    let open_now : is_rate_limited_locked s rate_key (env.time 292) ≡ false = ground arith in
    let (found, active, knows, (started, not_empty)) =
      log_in-Started env (others s) r (find_admin_by_account_locked s name) password rate_key token
        t a (rw open_now at h) in
    (
      record { found = found; active = active; knows = knows; not_limited = open_now },
      rw open_now (
          require_admin-eq later
            (log_in env (others s) r (find_admin_by_account_locked s name) password rate_key).0 r'
          ∙ rw same (rw (not_empty, started))),
    )
