-- ===== src/Accounts.antt =====
-- The accounts of administrators and their sessions (internal/licensecore/server.go): handleAdminLogin,
-- requireAdmin, handleAdminLogout, handleAdminPasswordChange.
pub mod Sessions
use license_guard.Base.{
  ℕ, ◌+◌, ◌*◌, ltb, String, List, [], ◌∷◌, Bool, true, false, ◌&&◌, ◌||◌, not, Option, none, some,
  Result, ok, err, Dict, lookup, insert, delete, retain, if◌then◌else◌, is_empty, is_some, ◌==◌,
  concat, to_lower, trim_space, equal_fold, trim_prefix, utf8, length, find_first, update_first,
}
use license_guard.Types.{Admin, Time, after, second}
use license_guard.Server.{Server, Env, Request, AdminSession, save_locked}
use license_guard.RateLimit.{
  is_rate_limited_locked, record_rate_limit_failure_locked, reset_rate_limit_locked, rate_limit_key,
  client_addr,
}
use license_guard.Audit.{audit_locked}

-- What these handlers write.
pub data AccountReply : Type 0 where
  failure : ℕ → String → String → AccountReply
  logged_in : String → Time → Admin → AccountReply
  done : AccountReply

-- findAdminByAccountLocked
unfoldable pub find_admin_by_account_locked : Server → String → Option Admin
find_admin_by_account_locked s account =
    let name = to_lower (trim_space account) in
    find_first (λ a. equal_fold a.account name) s.contents.admins

-- findAdminByIDLocked
abbrev pub has_admin_id : String → Admin → Bool
has_admin_id id a = a.id == id

unfoldable pub find_admin_by_id_locked : Server → String → Option Admin
find_admin_by_id_locked s id = find_first (has_admin_id id) s.contents.admins

-- bearerToken
unfoldable pub bearer_token : Request → String
bearer_token r =
    let token = trim_prefix r.authorization "Bearer " in
    if is_empty token || token == r.authorization then "" else token

-- What requireAdmin finds: an error, or the administrator of the session.
pub data Auth : Type 0 where
  refused : String → Auth
  admin : String → Auth

-- The session under a token, if it has not expired, and the sessions without an expired one.
unfoldable pub open_session : Dict AdminSession → Time → String → Dict AdminSession × Auth
open_session sessions now token = elim (lookup token sessions) [
  | none ↦ (sessions, refused "invalid admin token")
  | some session ↦
      if after now session.expires_at
      then (delete token sessions, refused "invalid admin token")
      else (sessions, admin session.admin_id)
]

-- requireAdmin
unfoldable pub require_admin : Env → Server → Request → Server × Auth
unfolding open_session
require_admin env s r =
    let token = bearer_token r in
    if is_empty token
    then (s, refused "missing admin token")
    else (let (left, auth) = open_session s.admin_sessions (env.time 337) token in
        (record s { admin_sessions = left }, auth))

-- A save, and then a reply or the error.
unfoldable pub saved_then : Env → AccountReply → Server → Server × AccountReply
unfolding save_locked
saved_then env reply s =
    let (s', e) = save_locked env s in
    elim e [ none ↦ (s', reply) | some message ↦ (s', failure 500 "SAVE_FAILED" message) ]

-- handleAdminLogout
unfoldable pub handle_admin_logout : Env → Server → Request → String → Server × AccountReply
unfolding saved_then
handle_admin_logout env s r admin_id = saved_then env done (
    audit_locked env 227 admin_id "admin.logout" "admin" admin_id r none
      (record s { admin_sessions = delete (bearer_token r) s.admin_sessions }))

-- `admin == nil || admin.Status != "active"`
abbrev pub is_active_admin : Option Admin → Bool
is_active_admin none = false
is_active_admin (some a) = a.status == "active"

abbrev pub knows_password : Env → Option Admin → String → Bool
knows_password env none password = false
knows_password env (some a) password = env.compare_password a.password_hash password

-- The second critical section of a login that succeeds.
unfoldable pub start_session : Env → Server → Request → Admin → String → Server × AccountReply
start_session env s r a rate_key =
    let token = concat ("adm_" ∷ env.random_string 314 32 ∷ []) in
    let expires_at = env.time 315 + 12 * 3600 * second in
    let reset = reset_rate_limit_locked s rate_key in
    (
      audit_locked env 319 a.id "admin.login" "admin" a.id r none (record reset {
        admin_sessions =
            insert token (record { admin_id = a.id; expires_at = expires_at }) reset.admin_sessions;
      }),
      logged_in token expires_at a,
    )

abbrev wrong_credentials : AccountReply
wrong_credentials = failure 401 "INVALID_CREDENTIALS" "账号或密码错误"

-- What follows on the copy of the account that was found; `s` is the server when the lock is taken again.
unfoldable pub log_in :
    Env → Server → Request → Option Admin → String → String → Server × AccountReply
unfolding start_session
log_in env s r none password rate_key =
    (record_rate_limit_failure_locked s rate_key (env.time 308), wrong_credentials)
log_in env s r (some a) password rate_key =
    if not (a.status == "active") || not (env.compare_password a.password_hash password)
    then (record_rate_limit_failure_locked s rate_key (env.time 308), wrong_credentials)
    else start_session env s r a rate_key

-- handleAdminLogin, on a decoded body. The lock is let go while the password is compared: `others` is
-- what other requests do to the server meanwhile.
unfoldable pub handle_admin_login :
    Env → (Server → Server) → Server → Request → String → String → Server × AccountReply
unfolding log_in
handle_admin_login env others s r account password =
    let name = to_lower (trim_space account) in
    let rate_key = rate_limit_key ("admin_login" ∷ name ∷ client_addr env r ∷ []) in
    if is_rate_limited_locked s rate_key (env.time 292)
    then (s, failure 429 "RATE_LIMITED" "too many failed attempts, try again later")
    else log_in env (others s) r (find_admin_by_account_locked s name) password rate_key

-- invalidateAdminSessionsExceptLocked
unfoldable pub invalidate_admin_sessions_except_locked : Server → String → String → Server
invalidate_admin_sessions_except_locked s admin_id keep_token = record s {
  admin_sessions =
      retain (λ token session. not (session.admin_id == admin_id && not (token == keep_token)))
        s.admin_sessions;
}

-- The writes of a change of password.
unfoldable pub change_password : Env → Server → Request → String → String → Server
change_password env s r admin_id hash =
    let written = record s {
      contents = record s.contents {
        admins =
            update_first (has_admin_id admin_id)
              (λ a. record a { password_hash = hash; updated_at = env.time 270 }) s.contents.admins;
      };
    } in
    audit_locked env 272 admin_id "admin.password.update" "admin" admin_id r none
      (invalidate_admin_sessions_except_locked written admin_id (bearer_token r))

unfoldable pub store_password :
    Env → Server → Request → String → Result String → Server × AccountReply
unfolding change_password saved_then
store_password env s r admin_id (err e) = (s, failure 500 "PASSWORD_HASH_FAILED" e)
store_password env s r admin_id (ok hash) =
    saved_then env done (change_password env s r admin_id hash)

-- handleAdminPasswordChange, on a decoded body
unfoldable pub handle_admin_password_change :
    Env → Server → Request → String → String → String → Server × AccountReply
unfolding store_password
handle_admin_password_change env s r admin_id current_password new_password =
    if ltb (length (utf8 new_password)) 8
    then (s, failure 400 "WEAK_PASSWORD" "新密码至少需要 8 个字符")
    else (let found = find_admin_by_id_locked s admin_id in
        if not (is_active_admin found)
        then (s, failure 401 "UNAUTHORIZED" "admin not found")
        else if not (knows_password env found current_password)
        then (s, failure 401 "INVALID_CURRENT_PASSWORD" "当前密码错误")
        else store_password env s r admin_id (env.hash_password new_password))
