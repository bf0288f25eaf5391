-- ===== src/Release/Version.antt =====
-- Version texts of internal/licensecore/server.go (compareVersionStrings, splitVersionParts) and their order.
pub mod Order
use Prim.Native.Char.{code}
use Prim.Native.String
use license_guard.Base.{
  ℕ, zero, suc, ◌+◌, ◌-◌, ◌*◌, ◌%◌, ◌^◌, ◌<◌, ℤ, pos, negsuc, pos_part, neg_part, ltb_ℤ, ltb, leb,
  eqb, String, List, [], ◌∷◌, ◌++◌, Bool, true, false, ◌||◌, ◌&&◌, if◌then◌else◌, fields_func, ◌≡◌,
  refl, arith, Bool-cases, inl, inr,
}

-- `r == '.' || r == '-' || r == '_' || r == '+'`
abbrev pub is_separator : ℕ → Bool
is_separator r = eqb r b'.' || eqb r b'-' || eqb r b'_' || eqb r b'+'

abbrev is_digit : ℕ → Bool
is_digit r = leb b'0' r && leb r b'9'

-- An int of 64 bits from its bit pattern.
abbrev pub as_int64 : ℕ → ℤ
as_int64 n = if ltb n (2 ^ 63) then pos n else negsuc (2 ^ 64 - 1 - n)

-- The digits at the front of a part; the number wraps as an int does, and is a bit pattern here.
scan_number : ℕ → Bool → String → ℕ × Bool
scan_number number found String.[] = (number, found)
scan_number number found (String.◌∷◌ c s) =
    let rest = scan_number ((number * 10 + (code c - b'0')) % 2 ^ 64) true s in
    if is_digit (code c) then rest else (number, found)

version_numbers : List String → List ℤ
unfolding scan_number
version_numbers [] = []
version_numbers (part ∷ parts) =
    let rest = version_numbers parts in
    let scanned = scan_number 0 false part in if scanned.1 then as_int64 scanned.0 ∷ rest else rest

-- splitVersionParts
unfoldable pub split_version_parts : String → List ℤ
unfolding version_numbers
split_version_parts value = version_numbers (fields_func is_separator value)

-- One round of the loop of compareVersionStrings, with what the rest of the loop returns.
abbrev pub compare_round : ℤ → ℤ → ℤ → ℤ
compare_round left right rest =
    if ltb_ℤ left right then negsuc 0 else if ltb_ℤ right left then pos 1 else rest

-- The loop of compareVersionStrings: a part that is missing is 0.
unfoldable pub compare_parts : List ℤ → List ℤ → ℤ
compare_parts [] [] = pos 0
compare_parts [] (r ∷ rs) = let rest = compare_parts [] rs in compare_round (pos 0) r rest
compare_parts (l ∷ ls) [] = let rest = compare_parts ls [] in compare_round l (pos 0) rest
compare_parts (l ∷ ls) (r ∷ rs) = let rest = compare_parts ls rs in compare_round l r rest

-- compareVersionStrings
unfoldable pub compare_version_strings : String → String → ℤ
unfolding compare_parts split_version_parts
compare_version_strings left right =
    compare_parts (split_version_parts left) (split_version_parts right)

-- 1.10 is newer than 1.9, and 1.2 is 1.2.0.
version_test : compare_version_strings "1.10.0" "1.9" ≡ pos 1
unfolding compare_version_strings fields_func
version_test = refl

-- A part with a letter in front is dropped, so "v1.2.0" is the version 2.0.
letter_test : compare_version_strings "1.2" "v1.2.0" ≡ negsuc 0
unfolding compare_version_strings fields_func
letter_test = refl
