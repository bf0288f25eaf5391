-- ===== src/Base/Sorting.antt =====
-- sort.Slice by a test, as a sort by insertion, and what is known of the head of its result.
use mathlib.Core.Path.{◌≡◌, subst}
use mathlib.Core.Bool.{Bool, true, false}
use mathlib.Core.List.{List, [], ◌∷◌}
use mathlib.Core.Option.{Option, none, some}
use mathlib.Core.Logic.{inl, inr}
use license_guard.Base.Tests.{if◌then◌else◌, Bool-cases}
use license_guard.Base.Lists.{All}

insert_sorted {ℓ} : {A : Type ℓ} → (A → A → Bool) → A → List A → List A
insert_sorted less x [] = x ∷ []
insert_sorted less x (y ∷ ys) =
    let rest = insert_sorted less x ys in if less y x then y ∷ rest else x ∷ y ∷ ys

unfoldable pub sort_slice {ℓ} : {A : Type ℓ} → (A → A → Bool) → List A → List A
unfolding insert_sorted
sort_slice less [] = []
sort_slice less (x ∷ xs) = insert_sorted less x (sort_slice less xs)

abbrev pub head? {ℓ} : {A : Type ℓ} → List A → Option A
head? [] = none
head? (x ∷ xs) = some x

module _ {ℓ} {A : Type ℓ} (less : A → A → Bool) where
  All-insert_sorted {κ} :
      (P : A → Type κ) (x : A) (xs : List A) → P x → All P xs → All P (insert_sorted less x xs)
  unfolding insert_sorted
  All-insert_sorted P x [] p ps = (p, tt)
  All-insert_sorted P x (y ∷ ys) p (q, ps) = elim (Bool-cases (less y x)) [
    | inl e ↦ rw e (q, All-insert_sorted P x ys p ps)
    | inr e ↦ rw e (p, (q, ps))
  ]

  of_All-insert_sorted {κ} :
      (P : A → Type κ) (x : A) (xs : List A) → All P (insert_sorted less x xs) → P x × All P xs
  unfolding insert_sorted
  of_All-insert_sorted P x [] h = h
  of_All-insert_sorted P x (y ∷ ys) h = elim (Bool-cases (less y x)) [
    | inl e ↦
        let (q, rest) = rw e at h in let (p, ps) = of_All-insert_sorted P x ys rest in (p, (q, ps))
    | inr e ↦ rw e at h
  ]

  pub All-sort_slice {κ} : (P : A → Type κ) (xs : List A) → All P xs → All P (sort_slice less xs)
  unfolding sort_slice
  All-sort_slice P [] h = tt
  All-sort_slice P (x ∷ xs) (p, h) =
      All-insert_sorted P x (sort_slice less xs) p (All-sort_slice P xs h)

  pub of_All-sort_slice {κ} : (P : A → Type κ) (xs : List A) → All P (sort_slice less xs) → All P xs
  unfolding sort_slice
  of_All-sort_slice P [] h = tt
  of_All-sort_slice P (x ∷ xs) h =
      let (p, ps) = of_All-insert_sorted P x (sort_slice less xs) h in
      (p, of_All-sort_slice P xs ps)

  -- Nothing in the list goes before its head.
  abbrev HeadIsFirst : List A → Type 0
  HeadIsFirst [] = Unit
  HeadIsFirst (h ∷ xs) = All (λ x. less x h ≡ false) (h ∷ xs)

module _ {ℓ} {A : Type ℓ} (less : A → A → Bool)
    (asym : (a b : A) → less a b ≡ true → less b a ≡ false)
    (trans : (a b c : A) → less a b ≡ false → less b c ≡ false → less a c ≡ false) where
  irrefl : (a : A) → less a a ≡ false
  irrefl a = elim (Bool-cases (less a a)) [ inl e ↦ asym a a e | inr e ↦ e ]

  All-trans :
      (a b : A) (xs : List A)
      → less a b ≡ false
      → All (λ x. less x a ≡ false) xs
      → All (λ x. less x b ≡ false) xs
  All-trans a b [] h k = tt
  All-trans a b (x ∷ xs) h (k, ks) = (trans x a b k h, All-trans a b xs h ks)

  insert_sorted-HeadIsFirst :
      (x : A) (xs : List A) → HeadIsFirst less xs → HeadIsFirst less (insert_sorted less x xs)
  unfolding insert_sorted
  insert_sorted-HeadIsFirst x [] h = (irrefl x, tt)
  insert_sorted-HeadIsFirst x (y ∷ ys) (h, hs) = elim (Bool-cases (less y x)) [
    | inl e ↦ rw e (h, All-insert_sorted less (λ z. less z y ≡ false) x ys (asym y x e) hs)
    | inr e ↦ rw e (irrefl x, (e, All-trans y x ys e hs))
  ]

  sort_slice-HeadIsFirst : (xs : List A) → HeadIsFirst less (sort_slice less xs)
  unfolding sort_slice
  sort_slice-HeadIsFirst [] = tt
  sort_slice-HeadIsFirst (x ∷ xs) =
      insert_sorted-HeadIsFirst x (sort_slice less xs) (sort_slice-HeadIsFirst xs)

  first_of_HeadIsFirst :
      (xs : List A) {h : A}
      → HeadIsFirst less xs
      → head? xs ≡ some h
      → All (λ x. less x h ≡ false) xs
  first_of_HeadIsFirst [] f e = tt
  first_of_HeadIsFirst (x ∷ xs) {h} f e = subst (λ o. All (λ z. less z o ≡ false) (x ∷ xs)) (cc) f

  pub head?-sort_slice :
      (xs : List A) {h : A} → head? (sort_slice less xs) ≡ some h → All (λ x. less x h ≡ false) xs
  head?-sort_slice xs e =
      of_All-sort_slice less _ xs
        (first_of_HeadIsFirst (sort_slice less xs) (sort_slice-HeadIsFirst xs) e)
