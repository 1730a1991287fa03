-- ===== src/Errorx/Generator/Markdown/Cells.antt =====
-- That a cell cannot break the row it stands in, and that a table lists its definitions in order.
use mathlib.Core.Path.{subst}
use finokit.Base.{
  ℕ, ◌+◌, ◌==◌, List, [], ◌∷◌, ◌++◌, Bool, true, false, All-append, Text, text, Lacks, replace_all,
  replace_from, ltb_ℤ, ℤ, ◌≡◌, refl, arith, inl, inr, Bool-cases, has_prefix, ◌≤ℤ◌, ==_iff, sym, ap,
  ◌∙◌, if◌then◌else◌,
}
use finokit.Errorx.Generator.{Definition}
use finokit.Errorx.Generator.Markdown.{markdown_cell, insert_definition, sort_definitions}

replace_all-same :
    (d : ℕ) (s new : Text) → replace_all (d ∷ s) (d ∷ []) new ≡ new ++ replace_all s (d ∷ []) new
unfolding replace_all replace_from has_prefix
replace_all-same d s new = ground arith

replace_all-differs :
    (c d : ℕ) (s new : Text)
    → (c == d) ≡ false
    → replace_all (c ∷ s) (d ∷ []) new ≡ c ∷ replace_all s (d ∷ []) new
unfolding replace_all replace_from has_prefix
replace_all-differs c d s new h = ground arith

-- Replacing a character keeps out what neither the text nor the replacement has, and the character.
replace_all-other :
    (d e : ℕ) (s new : Text) → Lacks e s → Lacks e new → Lacks e (replace_all s (d ∷ []) new)
replace_all-other d e [] new h hn = unfold replace_all replace_from in tt
replace_all-other d e (c ∷ s) new (hc, h) hn = elim (Bool-cases (c == d)) [
  | inl same ↦
      let is : c ≡ d = omega (arith, (==_iff c d).0 same) in
      subst (Lacks e)
        (sym (ap (λ b. replace_all (b ∷ s) (d ∷ []) new) is ∙ replace_all-same d s new))
        (All-append _ new (replace_all s (d ∷ []) new) hn (replace_all-other d e s new h hn))
  | inr other ↦
      subst (Lacks e) (sym (replace_all-differs c d s new other))
        (hc, replace_all-other d e s new h hn)
]

replace_all-gone : (d : ℕ) (s new : Text) → Lacks d new → Lacks d (replace_all s (d ∷ []) new)
replace_all-gone d [] new hn = unfold replace_all replace_from in tt
replace_all-gone d (c ∷ s) new hn = elim (Bool-cases (c == d)) [
  | inl same ↦
      let is : c ≡ d = omega (arith, (==_iff c d).0 same) in
      subst (Lacks d)
        (sym (ap (λ b. replace_all (b ∷ s) (d ∷ []) new) is ∙ replace_all-same d s new))
        (All-append _ new (replace_all s (d ∷ []) new) hn (replace_all-gone d s new hn))
  | inr other ↦
      subst (Lacks d) (sym (replace_all-differs c d s new other))
        (λ e. ground (arith, ==_iff c d), replace_all-gone d s new hn)
]

-- A cell of the document, whatever its value is, has neither a line feed nor a carriage return.
pub markdown_cell-Lacks :
    (value : Text) → Lacks 10 (markdown_cell value) × Lacks 13 (markdown_cell value)
unfolding markdown_cell
markdown_cell-Lacks value =
    let escaped = replace_all value (text "|") (text "\\|") in
    let joined = replace_all escaped (text "\r") (text " ") in
    (
      replace_all-gone 10 joined (text " ") (omega arith, tt),
      replace_all-other 10 13 joined (text " ")
          (replace_all-gone 13 escaped (text " ") (omega arith, tt)) (omega arith, tt),
    )

-- How many definitions of a list pass a test.
unfoldable pub count : (Definition → Bool) → List Definition → ℕ
count q [] = 0
count q (d ∷ ds) = (if q d then 1 else 0) + count q ds

count-insert_definition :
    (q : Definition → Bool) (d : Definition) (ds : List Definition)
    → count q (insert_definition d ds) ≡ count q (d ∷ ds)
unfolding count insert_definition
count-insert_definition q d [] = refl
count-insert_definition q d (e ∷ es) = ground (arith, count-insert_definition q d es)

-- The first code of a list is not below a code, and the codes do not fall.
abbrev pub Above : ℤ → List Definition → Type 0
Above c [] = Unit
Above c (d ∷ ds) = c ≤ℤ d.code

abbrev pub Rises : List Definition → Type 0
Rises [] = Unit
Rises (d ∷ ds) = Above d.code ds × Rises ds

not_below : (a b : ℤ) → ltb_ℤ a b ≡ false → b ≤ℤ a
not_below a b h = ground arith

below : (a b : ℤ) → ltb_ℤ a b ≡ true → a ≤ℤ b
below a b h = ground arith

insert_definition-Above :
    (c : ℤ) (d : Definition) (ds : List Definition)
    → c ≤ℤ d.code
    → Above c ds
    → Above c (insert_definition d ds)
unfolding insert_definition
insert_definition-Above c d [] le above = le
insert_definition-Above c d (e ∷ es) le above = elim (Bool-cases (ltb_ℤ e.code d.code)) [
  | inl before ↦ rw before above
  | inr after ↦ rw after le
]

insert_definition-Rises :
    (d : Definition) (ds : List Definition) → Rises ds → Rises (insert_definition d ds)
unfolding insert_definition
insert_definition-Rises d [] r = (tt, tt)
insert_definition-Rises d (e ∷ es) (above, r) = elim (Bool-cases (ltb_ℤ e.code d.code)) [
  | inl before ↦ rw before (
    insert_definition-Above e.code d es (below e.code d.code before) above,
    insert_definition-Rises d es r,
  )
  | inr after ↦ rw after (not_below e.code d.code after, (above, r))
]

-- The tables of the document list each definition of a module as often as it stands there, in the order
-- of the codes.
pub sort_definitions-Rises :
    (q : Definition → Bool) (ds : List Definition)
    → Rises (sort_definitions ds) × (count q (sort_definitions ds) ≡ count q ds)
unfolding sort_definitions count
sort_definitions-Rises q [] = (tt, refl)
sort_definitions-Rises q (d ∷ ds) =
    let (rises, same) = sort_definitions-Rises q ds in
    (
      insert_definition-Rises d (sort_definitions ds) rises,
      count-insert_definition q d (sort_definitions ds) ∙ ground (arith, same),
    )
