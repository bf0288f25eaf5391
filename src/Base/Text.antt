-- ===== src/Base/Text.antt =====
-- What the source uses of Go's `strings`, over texts as sequences of code points.
-- `to_lower` and `equal_fold` change the ASCII letters and leave other code points alone.
use Prim.Native.Nat.{◌/◌, ◌%◌, ℕ, zero, suc, ◌+◌, ◌-◌, ◌<◌}
use Prim.Native.Char.{Char, char, code, IsScalar}
use Prim.Native.String
use Prim.Native.String.{String}
use mathlib.Core.Path.{◌≡◌, refl}
use mathlib.Core.Bool.{Bool, true, false, ◌&&◌, ◌||◌}
use mathlib.Core.Logic.{dite}
use mathlib.Core.List.{List, [], ◌∷◌}
use mathlib.Core.Option.{Option, none, some}
use native.Mathlib.Omega.{arith}
use native.Mathlib.Decide.{dec_lt}
use text.Mathlib.Text.{◌==◌, starts_with}
use text.Mathlib.TextLemmas.{nil-append, cons-append}
use license_guard.Base.Tests.{ltb, leb, eqb, if◌then◌else◌}

pub small_IsScalar : (n : ℕ) → n < 55296 → IsScalar n
small_IsScalar n h = ground arith

lower_char : Char → Char
unfolding dec_lt
lower_char (char n p) =
    dite (dec_lt 64 n)
      (λ _.
        dite (dec_lt n 91) (λ h. char (n + 32) (small_IsScalar (n + 32) (omega arith)))
          (λ _. char n p))
      (λ _. char n p)

upper_char : Char → Char
unfolding dec_lt
upper_char (char n p) =
    dite (dec_lt 96 n)
      (λ _.
        dite (dec_lt n 123) (λ h. char (n - 32) (small_IsScalar (n - 32) (omega arith)))
          (λ _. char n p))
      (λ _. char n p)

-- strings.ToLower
unfoldable pub to_lower : String → String
unfolding lower_char
to_lower String.[] = String.[]
to_lower (String.◌∷◌ c s) = String.◌∷◌ (lower_char c) (to_lower s)

-- strings.ToUpper
unfoldable pub to_upper : String → String
unfolding upper_char
to_upper String.[] = String.[]
to_upper (String.◌∷◌ c s) = String.◌∷◌ (upper_char c) (to_upper s)

-- strings.EqualFold
unfoldable pub equal_fold : String → String → Bool
unfolding to_lower
equal_fold s t = to_lower s == to_lower t

-- unicode.IsSpace
abbrev is_space : Char → Bool
is_space c =
    let n = code c in
    (leb 9 n && leb n 13)
    || eqb n 32
    || eqb n 0x85
    || eqb n 0xA0
    || eqb n 0x1680
    || (leb 0x2000 n && leb n 0x200a)
    || eqb n 0x2028
    || eqb n 0x2029
    || eqb n 0x202f
    || eqb n 0x205f
    || eqb n 0x3000

trim_left : (Char → Bool) → String → String
trim_left p String.[] = String.[]
trim_left p (String.◌∷◌ c s) = let rest = trim_left p s in if p c then rest else String.◌∷◌ c s

-- Drops the longest tail of which every character passes the test.
trim_right : (Char → Bool) → String → String
trim_right p String.[] = String.[]
trim_right p (String.◌∷◌ c s) =
    let rest = trim_right p s in if rest == "" && p c then "" else String.◌∷◌ c rest

-- strings.TrimSpace
unfoldable pub trim_space : String → String
unfolding trim_left trim_right
trim_space s = trim_right is_space (trim_left is_space s)

abbrev pub is_empty : String → Bool
is_empty s = s == ""

-- The `+` of several texts.
unfoldable pub concat : List String → String
concat [] = ""
concat (s ∷ ss) = String.◌++◌ s (concat ss)

-- strings.Join
unfoldable pub join : List String → String → String
unfolding concat
join [] sep = ""
join (s ∷ []) sep = s
join (s ∷ t ∷ ss) sep = concat (s ∷ sep ∷ join (t ∷ ss) sep ∷ [])

-- A `switch` over texts, or a loop over a list of them.
unfoldable pub one_of : String → List String → Bool
one_of s [] = false
one_of s (t ∷ ts) = let rest = one_of s ts in if s == t then true else rest

strip : String → String → Option String
strip String.[] s = some s
strip (String.◌∷◌ c p) String.[] = none
strip (String.◌∷◌ c p) (String.◌∷◌ d s) =
    let rest = strip p s in if eqb (code c) (code d) then rest else none

-- strings.TrimPrefix
unfoldable pub trim_prefix : String → String → String
unfolding strip
trim_prefix s prefix = elim (strip prefix s) [ none ↦ s | some rest ↦ rest ]

-- s[:n], on a text of one byte for each character
unfoldable pub first_chars : ℕ → String → String
first_chars zero s = ""
first_chars (suc n) String.[] = ""
first_chars (suc n) (String.◌∷◌ c s) = String.◌∷◌ c (first_chars n s)

-- strings.Contains
unfoldable pub contains : String → String → Bool
contains String.[] t = is_empty t
contains (String.◌∷◌ c s) t =
    let rest = contains s t in if starts_with (String.◌∷◌ c s) t then true else rest

add_front : Char → List String → List String
add_front c [] = String.◌∷◌ c "" ∷ []
add_front c (s ∷ ss) = String.◌∷◌ c s ∷ ss

-- strings.Split with a separator of one character.
unfoldable pub split_on : ℕ → String → List String
unfolding add_front
split_on sep String.[] = "" ∷ []
split_on sep (String.◌∷◌ c s) =
    let rest = split_on sep s in if eqb (code c) sep then "" ∷ rest else add_front c rest

split_by : (ℕ → Bool) → String → List String
unfolding add_front
split_by p String.[] = "" ∷ []
split_by p (String.◌∷◌ c s) =
    let rest = split_by p s in if p (code c) then "" ∷ rest else add_front c rest

drop_empty : List String → List String
drop_empty [] = []
drop_empty (t ∷ ts) = let rest = drop_empty ts in if is_empty t then rest else t ∷ rest

-- strings.FieldsFunc
unfoldable pub fields_func : (ℕ → Bool) → String → List String
unfolding split_by drop_empty
fields_func p s = drop_empty (split_by p s)

lower_test : to_lower "Active_09Z" ≡ "active_09z"
unfolding to_lower
lower_test = refl

trim_test : trim_space "  a b \n" ≡ "a b"
unfolding trim_space
trim_test = refl

split_test : split_on b'/' "ab/c" ≡ "ab" ∷ "c" ∷ []
unfolding split_on
split_test = refl

contains_test : contains "xx_token_" "token" ≡ true
unfolding contains
contains_test = refl

fields_test : fields_func (λ n. eqb n b'.') "1..20." ≡ "1" ∷ "20" ∷ []
unfolding fields_func
fields_test = refl

utf8_char : ℕ → List ℕ → List ℕ
utf8_char n rest =
    if ltb n 0x80
    then n ∷ rest
    else if ltb n 0x800
    then (192 + n / 64) ∷ (128 + n % 64) ∷ rest
    else if ltb n 0x10000
    then (224 + n / 4096) ∷ (128 + n / 64 % 64) ∷ (128 + n % 64) ∷ rest
    else (240 + n / 262144) ∷ (128 + n / 4096 % 64) ∷ (128 + n / 64 % 64) ∷ (128 + n % 64) ∷ rest

-- The conversion []byte(s): the text's UTF-8.
unfoldable pub utf8 : String → List ℕ
unfolding utf8_char
utf8 String.[] = []
utf8 (String.◌∷◌ c s) = utf8_char (code c) (utf8 s)

-- No character of the text has the code point `n`.
abbrev pub Lacks : ℕ → String → Type 0
Lacks n String.[] = Unit
Lacks n (String.◌∷◌ c s) = (eqb (code c) n ≡ false) × Lacks n s

pub split_on-Lacks : (n : ℕ) (s : String) → Lacks n s → split_on n s ≡ s ∷ []
unfolding split_on
split_on-Lacks n String.[] h = refl
split_on-Lacks n (String.◌∷◌ c s) h = rw (split_on-Lacks n s h.1, h.0)

-- A split goes on behind the first separator.
pub split_on-append :
    (n : ℕ) (s t : String) (c : Char)
    → Lacks n s
    → code c ≡ n
    → split_on n (String.◌++◌ s (String.◌∷◌ c t)) ≡ s ∷ split_on n t
unfolding split_on
split_on-append n String.[] t c h e = rw nil-append (rw e (ground arith))
split_on-append n (String.◌∷◌ d s) t c h e =
    rw cons-append (rw (split_on-append n s t c h.1 e, h.0))

utf8_test : utf8 "a设" ≡ 0x61 ∷ 0xE8 ∷ 0xAE ∷ 0xBE ∷ []
unfolding utf8
utf8_test = refl

pub trim_space-empty : trim_space "" ≡ ""
unfolding trim_space trim_left trim_right
trim_space-empty = refl

pub trim_prefix-empty : (prefix : String) → trim_prefix "" prefix ≡ ""
unfolding trim_prefix strip
trim_prefix-empty String.[] = refl
trim_prefix-empty (String.◌∷◌ c p) = refl
