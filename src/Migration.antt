-- ===== src/Migration.antt =====
-- How a migration file is cut into statements (internal/licensecore/migration.go: splitSQLStatements and
-- readDollarTag). The source goes over the bytes and compares them with ASCII alone; here the text is the
-- list of its code points, so that a character of several bytes is written at once.
pub mod Solid
pub mod Split
use license_guard.Base.{
  ℕ, suc, zero, ◌-◌, String, List, [], ◌∷◌, ◌++◌, Bool, true, false, ◌&&◌, ◌||◌, not, Option, none,
  some, if◌then◌else◌, eqb, leb, length,
}

abbrev pub CodePoints : Type 0
CodePoints = List ℕ

abbrev pub is_nil : CodePoints → Bool
is_nil [] = true
is_nil (c ∷ cs) = false

-- unicode.IsSpace
unfoldable pub is_white : ℕ → Bool
is_white n =
    (leb 9 n && leb n 13)
    || eqb n 32
    || eqb n 133
    || eqb n 160
    || eqb n 5760
    || (leb 8192 n && leb n 8202)
    || eqb n 8232
    || eqb n 8233
    || eqb n 8239
    || eqb n 8287
    || eqb n 12288

-- strings.TrimSpace
unfoldable pub trim_start : CodePoints → CodePoints
trim_start [] = []
trim_start (c ∷ cs) = let rest = trim_start cs in if is_white c then rest else c ∷ cs

unfoldable pub trim_end : CodePoints → CodePoints
trim_end [] = []
trim_end (c ∷ cs) = let rest = trim_end cs in if is_nil rest && is_white c then [] else c ∷ rest

unfoldable pub trim_white : CodePoints → CodePoints
trim_white cs = trim_end (trim_start cs)

-- strings.HasPrefix
unfoldable pub has_prefix : CodePoints → CodePoints → Bool
has_prefix cs [] = true
has_prefix [] (p ∷ ps) = false
has_prefix (c ∷ cs) (p ∷ ps) = let rest = has_prefix cs ps in if eqb c p then rest else false

-- What may stand between the two signs of a dollar tag.
abbrev pub is_tag_char : ℕ → Bool
is_tag_char ch =
    (leb 97 ch && leb ch 122) || (leb 65 ch && leb ch 90) || (leb 48 ch && leb ch 57) || eqb ch 95

-- The loop of readDollarTag: the tag from the second code point on.
unfoldable pub read_tag_end : CodePoints → Option CodePoints
read_tag_end [] = none
read_tag_end (ch ∷ cs) =
    let rest = read_tag_end cs in
    if eqb ch 36
    then some (ch ∷ [])
    else if is_tag_char ch
    then elim rest [ none ↦ none | some tag ↦ some (ch ∷ tag) ]
    else none

-- readDollarTag
unfoldable pub read_dollar_tag : CodePoints → Option CodePoints
unfolding read_tag_end
read_dollar_tag [] = none
read_dollar_tag (ch ∷ cs) =
    if not (eqb ch 36)
    then none
    else elim (read_tag_end cs) [ none ↦ none | some tag ↦ some (ch ∷ tag) ]

-- The variables of splitSQLStatements.
pub record Scan : Type 0 where
  pub statements : List CodePoints
  pub b : CodePoints
  pub in_single_quote : Bool
  pub in_double_quote : Bool
  pub in_line_comment : Bool
  pub in_block_comment : Bool
  pub dollar_tag : CodePoints

abbrev pub start : Scan
start = record {
  statements = [];
  b = [];
  in_single_quote = false;
  in_double_quote = false;
  in_line_comment = false;
  in_block_comment = false;
  dollar_tag = [];
}

-- b.WriteByte and b.WriteString
abbrev pub write : CodePoints → Scan → Scan
write cs st = record st { b = st.b ++ cs }

-- The end of a statement.
unfoldable pub end_statement : Scan → Scan
end_statement st =
    let statement = trim_white st.b in
    record st {
      statements = if is_nil statement then st.statements else st.statements ++ statement ∷ [];
      b = [];
    }

-- `next`, which is 0 at the end
abbrev pub next_of : CodePoints → ℕ
next_of [] = 0
next_of (c ∷ cs) = c

-- The `switch` at the end of the loop's body. A step gives the new variables, and how many code points it adds to `i`.
unfoldable pub step_switch : Scan → ℕ → ℕ → Scan × ℕ
unfolding end_statement
step_switch st ch next =
    if eqb ch 39
    then if st.in_double_quote
      then (write (ch ∷ []) st, 0)
      else if st.in_single_quote && eqb next 39
      then (write (ch ∷ next ∷ []) st, 1)
      else (record (write (ch ∷ []) st) { in_single_quote = not st.in_single_quote }, 0)
    else if eqb ch 34
    then if st.in_single_quote
      then (write (ch ∷ []) st, 0)
      else (record (write (ch ∷ []) st) { in_double_quote = not st.in_double_quote }, 0)
    else if eqb ch 59
    then if st.in_single_quote || st.in_double_quote
      then (write (ch ∷ []) st, 0)
      else (end_statement st, 0)
    else (write (ch ∷ []) st, 0)

-- Outside of quotes: what opens a comment or a dollar quote.
unfoldable pub step_plain : Scan → ℕ → CodePoints → Scan × ℕ
unfolding step_switch
step_plain st ch rest =
    let next = next_of rest in
    let other = step_switch st ch next in
    if eqb ch 45 && eqb next 45
    then (record (write (ch ∷ next ∷ []) st) { in_line_comment = true }, 1)
    else if eqb ch 47 && eqb next 42
    then (record (write (ch ∷ next ∷ []) st) { in_block_comment = true }, 1)
    else if eqb ch 36
    then elim (read_dollar_tag (ch ∷ rest)) [
      | none ↦ other
      | some tag ↦ (record (write tag st) { dollar_tag = tag }, length tag - 1)
    ]
    else other

-- The body of the loop, at a code point and those behind it.
unfoldable pub step : Scan → ℕ → CodePoints → Scan × ℕ
unfolding step_plain step_switch
step st ch rest =
    let next = next_of rest in
    if st.in_line_comment
    then (record (write (ch ∷ []) st) { in_line_comment = not (eqb ch 10) }, 0)
    else if st.in_block_comment
    then if eqb ch 42 && eqb next 47
      then (record (write (ch ∷ next ∷ []) st) { in_block_comment = false }, 1)
      else (write (ch ∷ []) st, 0)
    else if not (is_nil st.dollar_tag)
    then if has_prefix (ch ∷ rest) st.dollar_tag
      then (record (write st.dollar_tag st) { dollar_tag = [] }, length st.dollar_tag - 1)
      else (write (ch ∷ []) st, 0)
    else if not st.in_single_quote && not st.in_double_quote
    then step_plain st ch rest
    else step_switch st ch next

-- The loop, which goes on behind `skip` code points.
unfoldable pub scan : ℕ → Scan → CodePoints → Scan
unfolding step
scan skip st [] = st
scan (suc skip) st (ch ∷ rest) = scan skip st rest
scan zero st (ch ∷ rest) = let (st', skip) = step st ch rest in scan skip st' rest

-- splitSQLStatements
unfoldable pub split_sql_statements : CodePoints → List CodePoints
unfolding scan end_statement
split_sql_statements text = (end_statement (scan 0 start text)).statements
