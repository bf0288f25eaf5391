-- ===== src/Admin/Issue.antt =====
-- The licenses that administrators issue (internal/licensecore/server.go, handleLicenses) are found by their keys.
use license_guard.Base.{
  String, List, [], ◌∷◌, ◌++◌, Bool, true, false, Option, none, some, eq_iff, ◌≡◌, ◌≢◌, refl, sym,
  ◌∙◌, ap, arith, Bool-cases, inl, inr, find_first, find_first-append,
}
use license_guard.Types.{License, SystemSettings, Time}
use license_guard.Server.{Server, Env, Request, save_locked, hash_string}
use license_guard.Server.Find.{find_license_by_key_locked, has_key_hash}
use license_guard.Verification.Grant.{settings_locked}
use license_guard.Audit.{audit_locked}
use license_guard.Admin.{AdminReply, failure, new_license, save_then}
use license_guard.Admin.Catalog.{
  LicenseRequest, license_expiry, generate_license_key, made_license, store_license, create_license,
}

find_first-append_ne {ℓ} :
    {A : Type ℓ} (p : A → Bool) (xs : List A) (x : A)
    → p x ≡ false
    → find_first p (xs ++ x ∷ []) ≡ find_first p xs
unfolding find_first
find_first-append_ne p [] x h = rw h refl
find_first-append_ne p (y ∷ ys) x h = elim (Bool-cases (p y)) [
  | inl e ↦ rw e refl
  | inr e ↦ rw e (find_first-append_ne p ys x h)
]

found {ℓ} : {A : Type ℓ} (p : A → Bool) (x : A) → p x ≡ true → find_first p (x ∷ []) ≡ some x
unfolding find_first
found p x h = rw h refl

store_license-new :
    (env : Env) (s : Server) (r : Request) (admin_id : String) (lic l : License) (key : String)
    → (store_license env s r admin_id lic).1 ≡ new_license l key
    → (lic ≡ l)
      × (generate_license_key env ≡ key)
      × ((store_license env s r admin_id lic).0.contents.licenses ≡ s.contents.licenses ++ lic ∷ [])
unfolding store_license save_then save_locked audit_locked
store_license-new env s r admin_id lic l key h = (ground arith, ground arith, ground arith)

-- A created license is what was stored, made for some expiry.
create_license-store :
    (env : Env) (others : Server → Server) (s : Server) (r : Request) (admin_id : String)
    (req : LicenseRequest) (l : License) (key : String)
    → (create_license env others s r admin_id req).1 ≡ new_license l key
    → (expires_at : Time) × (create_license env others s r admin_id req
        ≡ store_license env
            (others s)
            r
            admin_id
            (made_license env (settings_locked env s) req expires_at))
unfolding create_license
create_license-store env others s r admin_id req l key h =
    by_expiry (license_expiry env (settings_locked env s) req.expires_at) h
  where
    stored : Time → Server × AdminReply
    stored expires_at =
        store_license env (others s) r admin_id
          (made_license env (settings_locked env s) req expires_at)

    outcome : Option Time → Server × AdminReply
    outcome o = elim o [
      | none ↦ (others s, failure 400 "INVALID_EXPIRES_AT" "expires_at must be YYYY-MM-DD")
      | some expires_at ↦ stored expires_at
    ]

    by_expiry :
        (o : Option Time) → (outcome o).1 ≡ new_license l key → (t : Time) × (outcome o ≡ stored t)
    by_expiry none k = absurd (ground (arith, k))
    by_expiry (some t) k = (t, refl)

made_license-key :
    (env : Env) (settings : SystemSettings) (req : LicenseRequest) (t : Time)
    → ((made_license env settings req t).license_key_hash
        ≡ hash_string env (generate_license_key env))
      × ((made_license env settings req t).status ≡ "active")
unfolding made_license
made_license-key env settings req t = (refl, refl)

-- The license that an administrator has created is active, and its key finds it, unless another license
-- had a key with that hash already. Every key with another hash finds what it found before; `others` is what
-- other requests did to the server before the license was stored.
pub create_license-found :
    (env : Env) (others : Server → Server) (s : Server) (r : Request) (admin_id : String)
    (req : LicenseRequest) (l : License) (key : String)
    → (create_license env others s r admin_id req).1 ≡ new_license l key
    → find_license_by_key_locked env (others s) key ≡ none
    → let s' = (create_license env others s r admin_id req).0 in
      (find_license_by_key_locked env s' key ≡ some l)
      × (l.status ≡ "active")
      × ((other : String)
          → hash_string env other ≢ hash_string env key
          → find_license_by_key_locked env s' other
            ≡ find_license_by_key_locked env (others s) other)
unfolding find_license_by_key_locked
create_license-found env others s r admin_id req l key h fresh =
    let (t, same) = create_license-store env others s r admin_id req l key h in
    let lic = made_license env (settings_locked env s) req t in
    let (is_lic, is_key, licenses) =
      store_license-new env (others s) r admin_id lic l key (ap (λ p. p.1) (sym same) ∙ h) in
    let (hashed, active) = made_license-key env (settings_locked env s) req t in
    let stored : (create_license env others s r admin_id req).0.contents.licenses
        ≡ (others s).contents.licenses ++ l ∷ [] =
      ap (λ p. p.0.contents.licenses) same
      ∙ licenses
      ∙ ap (λ x. (others s).contents.licenses ++ x ∷ []) is_lic in
    let hash_of : l.license_key_hash ≡ hash_string env key =
      ap (λ x. x.license_key_hash) (sym is_lic) ∙ hashed ∙ ap (hash_string env) is_key in
    (
      rw stored (
          find_first-append (has_key_hash (hash_string env key)) (others s).contents.licenses
            (l ∷ []) fresh
          ∙ found (has_key_hash (hash_string env key)) l
              ((eq_iff l.license_key_hash (hash_string env key)).1 hash_of)),
      ap (λ x. x.status) (sym is_lic) ∙ active,
      λ other ne. rw stored (
          find_first-append_ne (has_key_hash (hash_string env other)) (others s).contents.licenses l
            (ground (arith, eq_iff l.license_key_hash (hash_string env other), hash_of, ne))),
    )
