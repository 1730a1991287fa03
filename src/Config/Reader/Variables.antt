-- ===== src/Config/Reader/Variables.antt =====
-- What `ReplaceEnvVars` makes of a text.
use mathlib.Core.List.{append_assoc, append-nil}
use finokit.Base.{
  ℕ, ◌+◌, ◌==◌, [], ◌∷◌, ◌++◌, none, some, true, false, length, length-append, All, Text, is_empty,
  Lacks, ◌≡◌, ◌≢◌, refl, ap, sym, ◌∙◌, arith,
}
use finokit.Config.Reader.{is_word, word_before, match_var, replace_vars, replace_env_vars}

-- A name of word characters.
abbrev pub IsName : Text → Type 0
IsName = All (λ c. is_word c ≡ true)

word_no_brace : (c : ℕ) → is_word c ≡ true → (c == b'}') ≡ false
unfolding is_word
word_no_brace c h = ground arith

word_before-append :
    (cur name s : Text)
    → IsName name
    → is_empty (cur ++ name) ≡ false
    → word_before cur (name ++ b'}' ∷ s) ≡ some (cur ++ name)
unfolding word_before
word_before-append cur [] s h some_chars = ground (arith, append-nil cur)
word_before-append cur (c ∷ name) s (hc, h) some_chars =
    let regroup = append_assoc cur (c ∷ []) name in
    let later = word_before-append (cur ++ c ∷ []) name s h (ap is_empty regroup ∙ some_chars) in
    let open_ : (c == b'}') ≡ false = word_no_brace c hc in rw (open_, hc) (later ∙ ap some regroup)

replace_vars-skip :
    (getenv : Text → Text) (p s : Text)
    → replace_vars getenv (length p) (p ++ s) ≡ replace_vars getenv 0 s
unfolding replace_vars
replace_vars-skip getenv [] s = refl
replace_vars-skip getenv (c ∷ p) s = replace_vars-skip getenv p s

match_var-append :
    (name s : Text)
    → IsName name
    → is_empty name ≡ false
    → match_var (b'$' ∷ b'{' ∷ name ++ b'}' ∷ s) ≡ some name
unfolding match_var
match_var-append name s h some_chars = word_before-append [] name s h some_chars

match_var_other : (c : ℕ) (s : Text) → c ≢ b'$' → match_var (c ∷ s) ≡ none
unfolding match_var
match_var_other c [] h = refl
match_var_other c (d ∷ s) h = ground arith

replace_vars-match :
    (getenv : Text → Text) (c : ℕ) (s name : Text)
    → match_var (c ∷ s) ≡ some name
    → replace_vars getenv 0 (c ∷ s) ≡ getenv name ++ replace_vars getenv (length name + 2) s
unfolding replace_vars
replace_vars-match getenv c s name found = rw (replace_vars, found) refl

-- A text without a dollar sign stays as it is.
pub replace_env_vars-Lacks :
    (getenv : Text → Text) (s : Text) → Lacks b'$' s → replace_env_vars getenv s ≡ s
unfolding replace_env_vars replace_vars
replace_env_vars-Lacks getenv [] h = refl
replace_env_vars-Lacks getenv (c ∷ s) (hc, h) =
    ground (arith, match_var_other c s hc, replace_env_vars-Lacks getenv s h)

-- The first variable of a text, written as a name of at least one letter, digit or underscore between
-- `${` and `}` and without a dollar sign before it, is replaced by its value in the environment; the
-- value is not searched again, and what follows is replaced as if it stood alone.
pub replace_env_vars-append :
    (getenv : Text → Text) (pre name post : Text)
    → Lacks b'$' pre
    → IsName name
    → is_empty name ≡ false
    → replace_env_vars getenv (pre ++ b'$' ∷ b'{' ∷ name ++ b'}' ∷ post)
      ≡ pre ++ getenv name ++ replace_env_vars getenv post
unfolding replace_env_vars replace_vars
replace_env_vars-append getenv [] name post h word some_chars =
    let p : Text = b'{' ∷ (name ++ b'}' ∷ []) in
    let size : length name + 2 ≡ length p = omega (arith, length-append name (b'}' ∷ [])) in
    let behind : b'{' ∷ (name ++ b'}' ∷ post) ≡ p ++ post =
      ap (◌∷◌ b'{') (sym (append_assoc name (b'}' ∷ []) post)) in
    let passed =
      ap (λ k. replace_vars getenv k (b'{' ∷ (name ++ b'}' ∷ post))) size
      ∙ ap (replace_vars getenv (length p)) behind
      ∙ replace_vars-skip getenv p post in
    replace_vars-match getenv b'$' (b'{' ∷ (name ++ b'}' ∷ post)) name
      (match_var-append name post word some_chars)
    ∙ ap (λ r. getenv name ++ r) passed
replace_env_vars-append getenv (c ∷ pre) name post (hc, h) word some_chars = ground (
  arith,
  match_var_other c (pre ++ b'$' ∷ b'{' ∷ name ++ b'}' ∷ post) hc,
  replace_env_vars-append getenv pre name post h word some_chars,
)
