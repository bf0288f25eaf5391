-- ===== src/Release/Version/Order.antt =====
-- compareVersionStrings (internal/licensecore/server.go) orders version texts.
use license_guard.Base.{
  zero, suc, ℤ, pos, negsuc, ltb_ℤ, leb_ℤ, String, List, [], ◌∷◌, true, false, ◌≡◌, ◌≤ℤ◌, refl,
  arith, Bool-cases, inl, inr,
}
use license_guard.Release.Version.{
  compare_round, compare_parts, compare_version_strings, split_version_parts,
}

-- -n
abbrev pub neg : ℤ → ℤ
neg (pos zero) = pos 0
neg (pos (suc n)) = negsuc n
neg (negsuc n) = pos (suc n)

compare_round-neg : (l r x y : ℤ) → x ≡ neg y → compare_round l r x ≡ neg (compare_round r l y)
compare_round-neg l r x y h = ground arith

compare_parts-neg : (ls rs : List ℤ) → compare_parts ls rs ≡ neg (compare_parts rs ls)
unfolding compare_parts
compare_parts-neg [] [] = refl
compare_parts-neg [] (r ∷ rs) = compare_round-neg (pos 0) r _ _ (compare_parts-neg [] rs)
compare_parts-neg (l ∷ ls) [] = compare_round-neg l (pos 0) _ _ (compare_parts-neg ls [])
compare_parts-neg (l ∷ ls) (r ∷ rs) = compare_round-neg l r _ _ (compare_parts-neg ls rs)

-- Comparing the other way round gives the opposite sign.
pub compare_version_strings-neg :
    (left right : String)
    → compare_version_strings left right ≡ neg (compare_version_strings right left)
unfolding compare_version_strings
compare_version_strings-neg left right =
    compare_parts-neg (split_version_parts left) (split_version_parts right)

abbrev Le : ℤ → Type 0
Le x = x ≤ℤ pos 0

compare_round_trans :
    (a b c x y z : ℤ)
    → (Le x → Le y → Le z)
    → Le (compare_round a b x)
    → Le (compare_round b c y)
    → Le (compare_round a c z)
compare_round_trans a b c x y z ih h k = ground arith

compare_parts_trans :
    (as' bs cs : List ℤ)
    → Le (compare_parts as' bs)
    → Le (compare_parts bs cs)
    → Le (compare_parts as' cs)
unfolding compare_parts
compare_parts_trans [] [] [] h k = h
compare_parts_trans [] [] (c ∷ cs) h k = k
compare_parts_trans [] (b ∷ bs) [] h k = omega arith
compare_parts_trans [] (b ∷ bs) (c ∷ cs) h k =
    compare_round_trans (pos 0) b c _ _ _ (compare_parts_trans [] bs cs) h k
compare_parts_trans (a ∷ as') [] [] h k = h
compare_parts_trans (a ∷ as') [] (c ∷ cs) h k =
    compare_round_trans a (pos 0) c _ _ _ (compare_parts_trans as' [] cs) h k
compare_parts_trans (a ∷ as') (b ∷ bs) [] h k =
    compare_round_trans a b (pos 0) _ _ _ (compare_parts_trans as' bs []) h k
compare_parts_trans (a ∷ as') (b ∷ bs) (c ∷ cs) h k =
    compare_round_trans a b c _ _ _ (compare_parts_trans as' bs cs) h k

compare_strings_le :
    (a b c : String)
    → Le (compare_version_strings a b)
    → Le (compare_version_strings b c)
    → Le (compare_version_strings a c)
unfolding compare_version_strings
compare_strings_le a b c =
    compare_parts_trans (split_version_parts a) (split_version_parts b) (split_version_parts c)

not_above : (x y : ℤ) → ltb_ℤ x (pos 0) ≡ false → y ≡ neg x → Le y
not_above x y h e = ground arith

not_below : (x y : ℤ) → ltb_ℤ x (pos 0) ≡ true → y ≡ neg x → Le y → ⊥
not_below x y h e k = ground arith

-- A version that is below a second one, which is not above a third one, is below the third one.
pub compare_version_strings_trans :
    (a b c : String)
    → ltb_ℤ (compare_version_strings a b) (pos 0) ≡ true
    → leb_ℤ (compare_version_strings b c) (pos 0) ≡ true
    → ltb_ℤ (compare_version_strings a c) (pos 0) ≡ true
compare_version_strings_trans a b c h k =
    elim (Bool-cases (ltb_ℤ (compare_version_strings a c) (pos 0))) [
      | inl e ↦ e
      | inr e ↦ absurd (
          not_below (compare_version_strings a b) (compare_version_strings b a) h
            (compare_version_strings-neg b a)
            (compare_strings_le b c a (ground arith) (
              not_above (compare_version_strings a c) (compare_version_strings c a) e
                (compare_version_strings-neg c a))))
    ]
