-- ===== src/Base/Lists.antt =====
-- Lists measured by native numbers, searched by a Boolean test, and updated at the first hit.
use Prim.Native.Nat.{ℕ, suc, ◌+◌}
use mathlib.Core.Path.{◌≡◌, refl, ap}
use mathlib.Core.Bool.{Bool, true, false}
use mathlib.Core.List.{List, [], ◌∷◌, ◌++◌, map}
use mathlib.Core.Option.{Option, none, some}
use mathlib.Core.Logic.{inl, inr, ◌⊎◌}
use native.Mathlib.Omega.{arith}
use license_guard.Base.Tests.{if◌then◌else◌, Bool-cases}

module _ {ℓ} {A : Type ℓ} where
  abbrev pub length : List A → ℕ
  length [] = 0
  length (x ∷ xs) = suc (length xs)

  -- A Go loop that returns a pointer to the first element that passes the test.
  unfoldable pub find_first : (A → Bool) → List A → Option A
  find_first p [] = none
  find_first p (x ∷ xs) = if p x then some x else find_first p xs

  -- A write through that pointer.
  unfoldable pub update_first : (A → Bool) → (A → A) → List A → List A
  update_first p f [] = []
  update_first p f (x ∷ xs) = let rest = update_first p f xs in if p x then f x ∷ xs else x ∷ rest

  unfoldable pub filter_by : (A → Bool) → List A → List A
  filter_by p [] = []
  filter_by p (x ∷ xs) = let rest = filter_by p xs in if p x then x ∷ rest else rest

  abbrev pub any : (A → Bool) → List A → Bool
  any p [] = false
  any p (x ∷ xs) = let rest = any p xs in if p x then true else rest

module _ {ℓ} {A : Type ℓ} where
  pub length-append : (xs ys : List A) → length (xs ++ ys) ≡ length xs + length ys
  length-append [] ys = omega arith
  length-append (x ∷ xs) ys = omega (arith, length-append xs ys)

  pub find_first-holds :
      (p : A → Bool) (xs : List A) {a : A} → find_first p xs ≡ some a → p a ≡ true
  unfolding find_first
  find_first-holds p [] h = ground arith
  find_first-holds p (x ∷ xs) h = elim (Bool-cases (p x)) [
    | inl e ↦ ground arith
    | inr e ↦ find_first-holds p xs (ground arith)
  ]

  pub length-update_first :
      (p : A → Bool) (f : A → A) (xs : List A) → length (update_first p f xs) ≡ length xs
  unfolding update_first
  length-update_first p f [] = refl
  length-update_first p f (x ∷ xs) = ground (arith, length-update_first p f xs)

  -- The write is seen by the same search, if the test still holds of what was written.
  pub find_first-update_first :
      (p : A → Bool) (f : A → A) (xs : List A) {a : A}
      → find_first p xs ≡ some a
      → p (f a) ≡ true
      → find_first p (update_first p f xs) ≡ some (f a)
  unfolding find_first update_first
  find_first-update_first p f [] h k = ground arith
  find_first-update_first p f (x ∷ xs) {a} h k = elim (Bool-cases (p x)) [
    | inl e ↦ ground arith
    | inr e ↦ ground (arith, find_first-update_first p f xs {a = a})
  ]

  pub find_first-append :
      (p : A → Bool) (xs ys : List A)
      → find_first p xs ≡ none
      → find_first p (xs ++ ys) ≡ find_first p ys
  unfolding find_first
  find_first-append p [] ys h = refl
  find_first-append p (x ∷ xs) ys h = ground (arith, find_first-append p xs ys)

  abbrev pub All {κ} : (A → Type κ) → List A → Type κ
  All P [] = Unit
  All P (x ∷ xs) = P x × All P xs

  pub find_first-append_some :
      (p : A → Bool) (xs ys : List A) {a : A}
      → find_first p xs ≡ some a
      → find_first p (xs ++ ys) ≡ some a
  unfolding find_first
  find_first-append_some p [] ys h = ground arith
  find_first-append_some p (x ∷ xs) ys {a} h =
      ground (arith, find_first-append_some p xs ys {a = a})

-- A write that a view does not show.
pub map-update_first {ℓ κ} :
    {A : Type ℓ} {B : Type κ} (view : A → B) (p : A → Bool) (f : A → A) (xs : List A)
    → ((a : A) → view (f a) ≡ view a)
    → map view (update_first p f xs) ≡ map view xs
unfolding update_first
map-update_first view p f [] h = refl
map-update_first view p f (x ∷ xs) h = elim (Bool-cases (p x)) [
  | inl t ↦ rw t (ap (λ y. y ∷ map view xs) (h x))
  | inr t ↦ rw t (ap (λ ys. view x ∷ ys) (map-update_first view p f xs h))
]

-- An element is one of a list.
abbrev pub IsIn : {A : Type 0} → A → List A → Type 0
IsIn x [] = ⊥
IsIn x (y ∷ ys) = (y ≡ x) ⊎ IsIn x ys

pub All-map {ℓ κ κ'} :
    {A : Type ℓ} (P : A → Type κ) (Q : A → Type κ') (xs : List A)
    → ((x : A) → P x → Q x)
    → All P xs
    → All Q xs
All-map P Q [] f h = tt
All-map P Q (x ∷ xs) f (h, hs) = (f x h, All-map P Q xs f hs)

pub All-IsIn : {A : Type 0} (xs : List A) → All (λ x. IsIn x xs) xs
All-IsIn [] = tt
All-IsIn (x ∷ xs) =
    (inl refl, All-map (λ y. IsIn y xs) (λ y. IsIn y (x ∷ xs)) xs (λ y h. inr h) (All-IsIn xs))
