-- ===== src/Migration/Split.antt =====
-- The statements of a migration file hold all that the file holds (internal/licensecore/migration.go,
-- splitSQLStatements).
use license_guard.Base.{
  ℕ, suc, zero, ◌-◌, [], ◌∷◌, ◌++◌, Bool, true, false, ◌&&◌, ◌||◌, not, Option, none, some,
  Option-cases, if◌then◌else◌, eqb, length, filter_by, append-nil, append_assoc, ◌≡◌, refl, sym,
  ◌∙◌, ap, subst, arith, Bool-cases, inl, inr,
}
use license_guard.Migration.{
  CodePoints, is_nil, has_prefix, read_tag_end, read_dollar_tag, Scan, start, write, end_statement,
  next_of, step_switch, step_plain, step, scan, split_sql_statements,
}
use license_guard.Migration.Solid.{solid, joined, seen, solid-append, seen-end_statement}

-- The code points behind the first ones.
abbrev behind : ℕ → CodePoints → CodePoints
behind zero cs = cs
behind (suc n) [] = []
behind (suc n) (c ∷ cs) = behind n cs

-- A step that writes what it passes keeps all that is solid.
abbrev Keeps : Scan → ℕ → CodePoints → Scan × ℕ → Type 0
Keeps st ch rest out =
    solid (seen out.0) ++ solid (behind out.1 rest) ≡ solid (seen st) ++ solid (ch ∷ rest)

write-Keeps :
    (st : Scan) (cs : CodePoints) (ch : ℕ) (rest : CodePoints) (n : ℕ)
    → cs ++ behind n rest ≡ ch ∷ rest
    → Keeps st ch rest (write cs st, n)
write-Keeps st cs ch rest n h =
    ap (λ x. x ++ solid (behind n rest))
      (ap solid (sym (append_assoc (joined st.statements) st.b cs)) ∙ solid-append (seen st) cs)
    ∙ append_assoc (solid (seen st)) (solid cs) (solid (behind n rest))
    ∙ ap (λ x. solid (seen st) ++ x) (sym (solid-append cs (behind n rest)) ∙ ap solid h)

write_next-Keeps :
    (st : Scan) (ch n : ℕ) (rest : CodePoints)
    → eqb 0 n ≡ false
    → eqb (next_of rest) n ≡ true
    → Keeps st ch rest (write (ch ∷ next_of rest ∷ []) st, 1)
write_next-Keeps st ch n [] h e = absurd (ground (arith, h, e))
write_next-Keeps st ch n (c ∷ cs) h e = write-Keeps st (ch ∷ c ∷ []) ch (c ∷ cs) 1 refl

has_prefix-behind :
    (cs ps : CodePoints) → has_prefix cs ps ≡ true → ps ++ behind (length ps) cs ≡ cs
unfolding has_prefix
has_prefix-behind cs [] h = refl
has_prefix-behind [] (p ∷ ps) h = absurd (ground arith)
has_prefix-behind (c ∷ cs) (p ∷ ps) h =
    ap (λ xs. p ∷ xs) (has_prefix-behind cs ps (ground arith)) ∙ ap (λ x. x ∷ cs) (ground arith)

read_tag_end-behind :
    (cs : CodePoints) {tag : CodePoints}
    → read_tag_end cs ≡ some tag
    → tag ++ behind (length tag) cs ≡ cs
unfolding read_tag_end
read_tag_end-behind [] h = absurd (ground arith)
read_tag_end-behind (c ∷ cs) {tag} h = elim (Bool-cases (eqb c 36)) [
  | inl e ↦
      let same : c ∷ [] ≡ tag = ground (arith, h, e) in
      subst (λ t. t ++ behind (length t) (c ∷ cs) ≡ c ∷ cs) same refl
  | inr e ↦ elim (Option-cases (read_tag_end cs)) [
    | inl f ↦ absurd (ground (arith, h, e, f))
    | inr (t, f) ↦
        let same : c ∷ t ≡ tag = ground (arith, h, e, f) in
        subst (λ u. u ++ behind (length u) (c ∷ cs) ≡ c ∷ cs) same
          (ap (λ x. c ∷ x) (read_tag_end-behind cs f))
  ]
]

-- A dollar tag begins the text that it is read from.
read_dollar_tag-behind :
    (ch : ℕ) (rest : CodePoints) {tag : CodePoints}
    → read_dollar_tag (ch ∷ rest) ≡ some tag
    → (tag ++ behind (length tag) (ch ∷ rest) ≡ ch ∷ rest) × (is_nil tag ≡ false)
unfolding read_dollar_tag
read_dollar_tag-behind ch rest {tag} h = elim (Option-cases (read_tag_end rest)) [
  | inl f ↦ absurd (ground (arith, h, f))
  | inr (t, f) ↦
      let same : ch ∷ t ≡ tag = ground (arith, h, f) in
      (
        subst (λ u. u ++ behind (length u) (ch ∷ rest) ≡ ch ∷ rest) same
            (ap (λ x. ch ∷ x) (read_tag_end-behind rest f)),
        ap is_nil (sym same),
      )
]

tag-Keeps :
    (st : Scan) (ch : ℕ) (rest tag : CodePoints)
    → tag ++ behind (length tag) (ch ∷ rest) ≡ ch ∷ rest
    → is_nil tag ≡ false
    → Keeps st ch rest (write tag st, length tag - 1)
tag-Keeps st ch rest [] h e = absurd (ground arith)
tag-Keeps st ch rest (t ∷ ts) h e =
    write-Keeps st (t ∷ ts) ch rest (length (t ∷ ts) - 1)
      (ap (λ n. (t ∷ ts) ++ behind n rest) (omega arith) ∙ h)

write_one-Keeps :
    (st : Scan) (ch : ℕ) (rest : CodePoints) → Keeps st ch rest (write (ch ∷ []) st, 0)
write_one-Keeps st ch rest = write-Keeps st (ch ∷ []) ch rest 0 refl

end_statement-Keeps :
    (st : Scan) (ch : ℕ) (rest : CodePoints)
    → eqb ch 59 ≡ true
    → Keeps st ch rest (end_statement st, 0)
unfolding filter_by end_statement
end_statement-Keeps st ch rest h =
    let passed : solid (ch ∷ rest) ≡ solid rest = ground (arith, h) in
    ap (λ x. x ++ solid rest)
      (ap solid (append-nil (joined (end_statement st).statements)) ∙ seen-end_statement st)
    ∙ ap (λ x. solid (seen st) ++ x) (sym passed)

-- A test picks one of two outcomes of a step.
branch :
    (P : Scan × ℕ → Type 0) (test : Bool) {x y : Scan × ℕ}
    → (test ≡ true → P x)
    → (test ≡ false → P y)
    → P (if test then x else y)
branch P true h k = h refl
branch P false h k = k refl

step_switch-Keeps :
    (st : Scan) (ch : ℕ) (rest : CodePoints) → Keeps st ch rest (step_switch st ch (next_of rest))
unfolding step_switch
step_switch-Keeps st ch rest =
    let one = write_one-Keeps st ch rest in
    branch (Keeps st ch rest) (eqb ch 39)
      (λ quote.
        branch (Keeps st ch rest) st.in_double_quote (λ e. one)
          (λ e.
            branch (Keeps st ch rest) (st.in_single_quote && eqb (next_of rest) 39)
              (λ f. write_next-Keeps st ch 39 rest refl (ground arith)) (λ f. one)))
      (λ e.
        branch (Keeps st ch rest) (eqb ch 34)
          (λ f. branch (Keeps st ch rest) st.in_single_quote (λ g. one) (λ g. one))
          (λ f.
            branch (Keeps st ch rest) (eqb ch 59)
              (λ semicolon.
                branch (Keeps st ch rest) (st.in_single_quote || st.in_double_quote) (λ g. one)
                  (λ g. end_statement-Keeps st ch rest semicolon))
              (λ g. one)))

step_plain-Keeps :
    (st : Scan) (ch : ℕ) (rest : CodePoints) → Keeps st ch rest (step_plain st ch rest)
unfolding step_plain
step_plain-Keeps st ch rest =
    branch (Keeps st ch rest) (eqb ch 45 && eqb (next_of rest) 45)
      (λ e. write_next-Keeps st ch 45 rest refl (ground arith))
      (λ e.
        branch (Keeps st ch rest) (eqb ch 47 && eqb (next_of rest) 42)
          (λ f. write_next-Keeps st ch 42 rest refl (ground arith))
          (λ f.
            branch (Keeps st ch rest) (eqb ch 36) (λ g. by_tag (read_dollar_tag (ch ∷ rest)) refl)
              (λ g. step_switch-Keeps st ch rest)))
  where
    by_tag :
        (o : Option CodePoints)
        → read_dollar_tag (ch ∷ rest) ≡ o
        → Keeps st ch rest (elim o as (λ _. Scan × ℕ) [
          | none ↦ step_switch st ch (next_of rest)
          | some tag ↦ (record (write tag st) { dollar_tag = tag }, length tag - 1)
        ])
    by_tag none h = step_switch-Keeps st ch rest
    by_tag (some tag) h =
        let (whole, there) = read_dollar_tag-behind ch rest h in
        tag-Keeps st ch rest tag whole there

step-Keeps : (st : Scan) (ch : ℕ) (rest : CodePoints) → Keeps st ch rest (step st ch rest)
unfolding step
step-Keeps st ch rest =
    let one = write_one-Keeps st ch rest in
    branch (Keeps st ch rest) st.in_line_comment (λ e. one)
      (λ e.
        branch (Keeps st ch rest) st.in_block_comment
          (λ f.
            branch (Keeps st ch rest) (eqb ch 42 && eqb (next_of rest) 47)
              (λ g. write_next-Keeps st ch 47 rest refl (ground arith)) (λ g. one))
          (λ f.
            branch (Keeps st ch rest) (not (is_nil st.dollar_tag))
              (λ g.
                branch (Keeps st ch rest) (has_prefix (ch ∷ rest) st.dollar_tag)
                  (λ k.
                    tag-Keeps st ch rest st.dollar_tag
                      (has_prefix-behind (ch ∷ rest) st.dollar_tag k) (ground arith))
                  (λ k. one))
              (λ g.
                branch (Keeps st ch rest) (not st.in_single_quote && not st.in_double_quote)
                  (λ k. step_plain-Keeps st ch rest) (λ k. step_switch-Keeps st ch rest))))

scan-solid :
    (skip : ℕ) (st : Scan) (text : CodePoints)
    → solid (seen (scan skip st text)) ≡ solid (seen st) ++ solid (behind skip text)
unfolding scan filter_by
scan-solid zero st [] = sym (append-nil (solid (seen st)))
scan-solid (suc skip) st [] = sym (append-nil (solid (seen st)))
scan-solid (suc skip) st (ch ∷ rest) = scan-solid skip st rest
scan-solid zero st (ch ∷ rest) =
    let out = step st ch rest in scan-solid out.1 out.0 rest ∙ step-Keeps st ch rest

-- The statements of a text hold, in order, all that the text holds, comments and quotes included, but
-- for white space and semicolons: nothing else is lost, added, repeated or moved.
pub split_sql_statements-solid :
    (text : CodePoints) → solid (joined (split_sql_statements text)) ≡ solid text
unfolding split_sql_statements filter_by
split_sql_statements-solid text = seen-end_statement (scan 0 start text) ∙ scan-solid 0 start text
