-- ===== src/Verification/Frame.antt =====
-- What a client's request can change of the server (internal/licensecore/server.go, processClientVerification).
use license_guard.Base.{
  List, [], ◌∷◌, Bool, some, inl, inr, ◌≡◌, ◌≢◌, refl, sym, ◌∙◌, subst, arith, Bool-cases,
  find_first, update_first, eq_iff,
}
use license_guard.Types.{License}
use license_guard.Server.{Server}
use license_guard.Verification.Monad.{Step, stop, go}

-- The server without what clients write: the part that only administrators change.
abbrev pub admin_part : Server → Server
admin_part s = record s {
  saves = [];
  challenges = [];
  rate_limits = [];
  contents = record s.contents {
    licenses = [];
    devices = [];
    activations = [];
    integrity_reports = [];
    risk_events = [];
  };
}

abbrev pub expired : License → License
expired l = record l { status = "expired" }

-- Licenses of which some may have become "expired".
pub data Expiry : List License → List License → Type 0 where
  nothing : Expiry [] []
  same : {ls ls' : List License} (l : License) → Expiry ls ls' → Expiry (l ∷ ls) (l ∷ ls')
  expires :
      {ls ls' : List License} (l : License) → Expiry ls ls' → Expiry (l ∷ ls) (expired l ∷ ls')

pub Expiry-refl : (ls : List License) → Expiry ls ls
Expiry-refl [] = nothing
Expiry-refl (l ∷ ls) = same l (Expiry-refl ls)

pub Expiry-trans : {ls ls' ls'' : List License} → Expiry ls ls' → Expiry ls' ls'' → Expiry ls ls''
Expiry-trans nothing nothing = nothing
Expiry-trans (same l h) (same l' k) = same l (Expiry-trans h k)
Expiry-trans (same l h) (expires l' k) = expires l (Expiry-trans h k)
Expiry-trans (expires l h) (same l' k) = expires l (Expiry-trans h k)
Expiry-trans (expires l h) (expires l' k) = expires l (Expiry-trans h k)

pub Expiry-update_first :
    (p : License → Bool) (ls : List License) → Expiry ls (update_first p expired ls)
unfolding update_first
Expiry-update_first p [] = nothing
Expiry-update_first p (l ∷ ls) = elim (Bool-cases (p l)) [
  | inl e ↦ rw e (expires l (Expiry-refl ls))
  | inr e ↦ rw e (same l (Expiry-update_first p ls))
]

-- A license that is not active when a search finds it is not active when the search is made again.
pub find_first-Expiry :
    {ls ls' : List License} (p : License → Bool) {l : License}
    → ((x : License) → p (expired x) ≡ p x)
    → Expiry ls ls'
    → find_first p ls ≡ some l
    → l.status ≢ "active"
    → (l' : License) × (find_first p ls' ≡ some l') × (l'.status ≢ "active")
unfolding find_first
find_first-Expiry p blind nothing h inactive = absurd (ground arith)
find_first-Expiry p {l} blind (same x k) h inactive = elim (Bool-cases (p x)) [
  | inl e ↦ (l, rw e (rw e at h), inactive)
  | inr e ↦
      let (l', found, inactive') = find_first-Expiry p blind k (rw e at h) inactive in
      (l', rw e found, inactive')
]
find_first-Expiry p {l} blind (expires x k) h inactive = elim (Bool-cases (p x)) [
  | inl e ↦ (expired x, rw (blind x ∙ e) refl, λ q. cc ((eq_iff "expired" "active").1 q))
  | inr e ↦
      let (l', found, inactive') = find_first-Expiry p blind k (rw e at h) inactive in
      (l', rw (blind x ∙ e) found, inactive')
]

-- What every answer to a client keeps.
pub record Frame (s s' : Server) : Type 0 where
  pub kept : admin_part s' ≡ admin_part s
  pub licenses : Expiry s.contents.licenses s'.contents.licenses

pub Frame-refl : (s : Server) → Frame s s
Frame-refl s = record { kept = refl; licenses = Expiry-refl s.contents.licenses }

pub Frame-trans : (s t u : Server) → Frame s t → Frame t u → Frame s u
Frame-trans s t u h k = record {
  kept = k.kept ∙ h.kept;
  licenses = Expiry-trans h.licenses k.licenses;
}

-- A step that writes no license.
pub Frame-same :
    (s s' : Server)
    → admin_part s' ≡ admin_part s
    → s'.contents.licenses ≡ s.contents.licenses
    → Frame s s'
Frame-same s s' kept e = record {
  kept = kept;
  licenses = subst (Expiry s.contents.licenses) (sym e) (Expiry-refl s.contents.licenses);
}

-- The server after a step of a handler.
abbrev pub after_step {ℓ} : {A : Type ℓ} → Step A → Server
after_step (stop t r) = t
after_step (go t a) = t

pub next-Frame {ℓ κ} :
    {A : Type ℓ} {B : Type κ} (s : Server) (m : Step A) (f : A → Server → Step B)
    → Frame s (after_step m)
    → ((a : A) (t : Server) → Frame t (after_step (f a t)))
    → Frame s (after_step (elim m as (λ _. Step B) [ stop t r ↦ stop t r | go t a ↦ f a t ]))
next-Frame s (stop u q) f h k = h
next-Frame s (go u a) f h k = Frame-trans s u _ h (k a u)
