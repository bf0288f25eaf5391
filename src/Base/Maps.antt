-- ===== src/Base/Maps.antt =====
-- Go's maps with text keys, as association lists; the order of the entries stands for nothing.
use Prim.Native.String.{String}
use mathlib.Core.Path.{◌≡◌, refl, sym, subst}
use mathlib.Core.Bool.{Bool, true}
use mathlib.Core.List.{List, [], ◌∷◌}
use mathlib.Core.Option.{Option, none, some}
use native.Mathlib.Omega.{arith}
use text.Mathlib.Text.{◌==◌}
use text.Mathlib.TextEquality.{eq_iff}
use text.Mathlib.TextPositions.{eq_refl}
use mathlib.Core.Logic.{◌≢◌, inl, inr}
use license_guard.Base.Tests.{if◌then◌else◌, Bool-cases}

abbrev pub Dict {ℓ} : Type ℓ → Type ℓ
Dict V = List (String × V)

module _ {ℓ} {V : Type ℓ} where
  unfoldable pub lookup : String → Dict V → Option V
  lookup k [] = none
  lookup k ((j, v) ∷ m) = if j == k then some v else lookup k m

  unfoldable pub delete : String → Dict V → Dict V
  delete k [] = []
  delete k ((j, v) ∷ m) = let rest = delete k m in if j == k then rest else (j, v) ∷ rest

  unfoldable pub insert : String → V → Dict V → Dict V
  unfolding delete
  insert k v m = (k, v) ∷ delete k m

  -- `for k, v := range m { if !keep(k, v) { delete(m, k) } }`
  unfoldable pub retain : (String → V → Bool) → Dict V → Dict V
  retain keep [] = []
  retain keep ((j, v) ∷ m) = let rest = retain keep m in if keep j v then (j, v) ∷ rest else rest

  pub lookup-delete :
      (k j : String) (m : Dict V) → lookup j (delete k m) ≡ (if k == j then none else lookup j m)
  unfolding lookup delete
  lookup-delete k j [] = ground arith
  lookup-delete k j ((i, v) ∷ m) =
      ground (arith, lookup-delete k j m, eq_iff i k, eq_iff i j, eq_iff k j)

  pub lookup-insert :
      (k j : String) (v : V) (m : Dict V)
      → lookup j (insert k v m) ≡ (if k == j then some v else lookup j m)
  unfolding lookup insert
  lookup-insert k j v m = ground (arith, lookup-delete k j m)

  -- What is still there after a sweep was there before, and passed the test.
  pub lookup-retain :
      (keep : String → V → Bool) (k : String) (m : Dict V) {v : V}
      → lookup k m ≡ some v
      → keep k v ≡ true
      → lookup k (retain keep m) ≡ some v
  unfolding lookup retain
  lookup-retain keep k [] h e = ground arith
  lookup-retain keep k ((j, w) ∷ m) {v} h e =
      ground (arith, eq_iff j k, lookup-retain keep k m {v = v})

  pub lookup-retain-none :
      (keep : String → V → Bool) (k : String) (m : Dict V)
      → lookup k m ≡ none
      → lookup k (retain keep m) ≡ none
  unfolding lookup retain
  lookup-retain-none keep k [] h = ground arith
  lookup-retain-none keep k ((j, w) ∷ m) h = ground (arith, lookup-retain-none keep k m)

  -- What is found after a sweep passed the test.
  pub lookup-retain_holds :
      (keep : String → V → Bool) (k : String) (m : Dict V) {v : V}
      → lookup k (retain keep m) ≡ some v
      → keep k v ≡ true
  unfolding lookup retain
  lookup-retain_holds keep k [] h = ground arith
  lookup-retain_holds keep k ((j, w) ∷ m) {v} h = elim (Bool-cases (keep j w)) [
    | inr e ↦ lookup-retain_holds keep k m (ground (arith, e))
    | inl e ↦ elim (Bool-cases (j == k)) [
      | inr f ↦ lookup-retain_holds keep k m (ground (arith, e, f))
      | inl f ↦
          let same : w ≡ v = ground (arith, e, f) in
          subst (λ x. keep x v ≡ true) ((eq_iff j k).0 f) (subst (λ x. keep j x ≡ true) same e)
    ]
  ]

  -- A sweep that keeps all that a key may hold does not change what is found under it.
  pub lookup-retain_all :
      (keep : String → V → Bool) (k : String) (m : Dict V)
      → ((v : V) → keep k v ≡ true)
      → lookup k (retain keep m) ≡ lookup k m
  unfolding lookup retain
  lookup-retain_all keep k [] all = refl
  lookup-retain_all keep k ((j, w) ∷ m) all = elim (Bool-cases (j == k)) [
    | inl f ↦ rw (subst (λ x. keep x w ≡ true) (sym ((eq_iff j k).0 f)) (all w)) (rw f)
    | inr f ↦ elim (Bool-cases (keep j w)) [
      | inl e ↦ ground (arith, e, f, lookup-retain_all keep k m all)
      | inr e ↦ ground (arith, e, f, lookup-retain_all keep k m all)
    ]
  ]

  pub lookup-delete_self : (k : String) (m : Dict V) → lookup k (delete k m) ≡ none
  lookup-delete_self k m = rw (lookup-delete k k m) (rw (eq_refl k))

  pub lookup-delete_ne : (k j : String) (m : Dict V) → k ≢ j → lookup j (delete k m) ≡ lookup j m
  lookup-delete_ne k j m ne = ground (arith, lookup-delete k j m, eq_iff k j)

  pub lookup-insert_self : (k : String) (v : V) (m : Dict V) → lookup k (insert k v m) ≡ some v
  lookup-insert_self k v m = rw (lookup-insert k k v m) (rw (eq_refl k))
