-- ===== src/Types/Dynamic.antt =====
-- The dynamic values and the times that the records of internal/licensecore/types.go hold.
use license_guard.Base.{ℕ, ◌/◌, ℤ, sub_ℕ, String, Bool, List, eqb, ltb}

-- What a Go `any` holds here: a decoded JSON value, or a value that the code itself puts in a map.
-- A JSON number is kept as its text.
mutual
  pub data Value : Type 0 where
    null : Value
    boolean : Bool → Value
    integer : ℤ → Value
    number : String → Value
    text : String → Value
    texts : List String → Value
    array : Values → Value
    object : Fields → Value

  pub data Values : Type 0 where
    nil : Values
    cons : Value → Values → Values

  pub data Fields : Type 0 where
    end : Fields
    field : String → Value → Fields → Fields

-- A time.Time, in nanoseconds since its zero value (January 1, year 1, UTC).
abbrev pub Time : Type 0
Time = ℕ

-- time.Time.IsZero
abbrev pub is_zero : Time → Bool
is_zero t = eqb t 0

-- t.After(u)
abbrev pub after : Time → Time → Bool
after t u = ltb u t

abbrev pub second : ℕ
second = 1000000000

-- time.Time.Unix: seconds since January 1, 1970.
unfoldable pub unix : Time → ℤ
unix t = sub_ℕ (t / second) 62135596800
