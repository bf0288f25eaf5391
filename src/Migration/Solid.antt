-- ===== src/Migration/Solid.antt =====
-- What the trimming and the end of a statement (internal/licensecore/migration.go) leave of a text.
use license_guard.Base.{
  ℕ, List, [], ◌∷◌, ◌++◌, Bool, true, ◌&&◌, ◌||◌, not, if◌then◌else◌, eqb, filter_by, append-nil,
  append_assoc, ◌≡◌, refl, sym, ◌∙◌, ap, arith, Bool-cases, inl, inr,
}
use license_guard.Migration.{
  CodePoints, is_nil, is_white, trim_start, trim_end, trim_white, Scan, end_statement,
}

-- What is neither white space nor a semicolon.
abbrev pub is_solid : ℕ → Bool
is_solid c = not (is_white c || eqb c 59)

abbrev pub solid : CodePoints → CodePoints
solid cs = filter_by is_solid cs

abbrev pub joined : List CodePoints → CodePoints
joined [] = []
joined (s ∷ ss) = s ++ joined ss

pub solid-append : (xs ys : CodePoints) → solid (xs ++ ys) ≡ solid xs ++ solid ys
unfolding filter_by
solid-append [] ys = refl
solid-append (x ∷ xs) ys = elim (Bool-cases (is_solid x)) [
  | inl e ↦ rw e (ap (λ zs. x ∷ zs) (solid-append xs ys))
  | inr e ↦ rw e (solid-append xs ys)
]

joined-append : (ss : List CodePoints) (s : CodePoints) → joined (ss ++ s ∷ []) ≡ joined ss ++ s
joined-append [] s = append-nil s
joined-append (t ∷ ss) s =
    ap (λ x. t ++ x) (joined-append ss s) ∙ sym (append_assoc t (joined ss) s)

solid-trim_start : (cs : CodePoints) → solid (trim_start cs) ≡ solid cs
unfolding trim_start filter_by
solid-trim_start [] = refl
solid-trim_start (c ∷ cs) = elim (Bool-cases (is_white c)) [
  | inl e ↦ rw e (solid-trim_start cs)
  | inr e ↦ ap solid {y = c ∷ cs} (rw e refl)
]

solid-front : (c : ℕ) (xs ys : CodePoints) → solid xs ≡ solid ys → solid (c ∷ xs) ≡ solid (c ∷ ys)
unfolding filter_by
solid-front c xs ys h = ap (λ zs. if is_solid c then c ∷ zs else zs) h

nil-eq : (cs : CodePoints) → is_nil cs ≡ true → cs ≡ []
nil-eq [] h = refl
nil-eq (c ∷ cs) h = absurd (ground arith)

solid-trim_end : (cs : CodePoints) → solid (trim_end cs) ≡ solid cs
unfolding trim_end filter_by
solid-trim_end [] = refl
solid-trim_end (c ∷ cs) = elim (Bool-cases (is_nil (trim_end cs) && is_white c)) [
  | inl e ↦
      let nothing : solid cs ≡ [] =
        sym (solid-trim_end cs) ∙ ap solid (nil-eq (trim_end cs) (ground arith)) in
      let white : is_white c ≡ true = ground arith in rw e (rw white (sym nothing))
  | inr e ↦ rw e (solid-front c (trim_end cs) cs (solid-trim_end cs))
]

solid-trim_white : (cs : CodePoints) → solid (trim_white cs) ≡ solid cs
unfolding trim_white
solid-trim_white cs = solid-trim_end (trim_start cs) ∙ solid-trim_start cs

-- What a scan has seen.
abbrev pub seen : Scan → CodePoints
seen st = joined st.statements ++ st.b

pub seen-end_statement :
    (st : Scan) → solid (joined (end_statement st).statements) ≡ solid (seen st)
unfolding end_statement filter_by
seen-end_statement st = elim (Bool-cases (is_nil (trim_white st.b))) [
  | inl e ↦
      let nothing : solid st.b ≡ [] =
        sym (solid-trim_white st.b) ∙ ap solid (nil-eq (trim_white st.b) e) in
      rw e (
        sym (append-nil (solid (joined st.statements)))
        ∙ ap (λ x. solid (joined st.statements) ++ x) (sym nothing)
        ∙ sym (solid-append (joined st.statements) st.b))
  | inr e ↦ rw e (
      ap solid (joined-append st.statements (trim_white st.b))
      ∙ solid-append (joined st.statements) (trim_white st.b)
      ∙ ap (λ x. solid (joined st.statements) ++ x) (solid-trim_white st.b)
      ∙ sym (solid-append (joined st.statements) st.b))
]
