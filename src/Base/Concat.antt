-- ===== src/Base/Concat.antt =====
-- When texts put together are not empty.
use Prim.Native.String.{String}
use text.Mathlib.TextLemmas.{append-eq-nil_iff}
use text.Mathlib.TextEquality.{eq_iff}
use mathlib.Core.Path.{◌≡◌}
use mathlib.Core.Bool.{false}
use mathlib.Core.Logic.{inl, inr}
use mathlib.Core.List.{List, ◌∷◌}
use native.Mathlib.Omega.{arith}
use license_guard.Base.Tests.{Bool-cases}
use license_guard.Base.Text.{is_empty, concat}

pub concat-head :
    (s : String) (ss : List String) → is_empty s ≡ false → is_empty (concat (s ∷ ss)) ≡ false
unfolding concat
concat-head s ss h = elim (Bool-cases (is_empty (concat (s ∷ ss)))) [
  | inl t ↦
      ground
        (arith, eq_iff (concat (s ∷ ss)) "", append-eq-nil_iff {p = s} {q = concat ss}, eq_iff s "")
  | inr f ↦ f
]

pub concat-tail :
    (s : String) (ss : List String)
    → is_empty (concat ss) ≡ false
    → is_empty (concat (s ∷ ss)) ≡ false
unfolding concat
concat-tail s ss h = elim (Bool-cases (is_empty (concat (s ∷ ss)))) [
  | inl t ↦ ground (
    arith,
    eq_iff (concat (s ∷ ss)) "",
    append-eq-nil_iff {p = s} {q = concat ss},
    eq_iff (concat ss) "",
  )
  | inr f ↦ f
]
