-- ===== src/Errorx/Generator/Codes.antt =====
-- Full error codes and file names of errorx/generator/generator.go.
use finokit.Base.{
  ℕ, ◌<◌, ◌+◌, ◌*◌, ◌⊎◌, ◌↔◌, [], ◌∷◌, ◌≡◌, ◌≢◌, ap, arith, ℤ, pos, pos_part, ◌≤ℤ◌, Text, All,
  to_lower, trim_space,
}
use finokit.Errorx.Generator.{compose_error_code, replace_marks, finish_name, sanitize_file_name}

-- A part of a full code: from 1 to the given bound.
abbrev pub IsPart : ℤ → ℤ → Type 0
IsPart n hi = (pos 1 ≤ℤ n) × (n ≤ℤ hi)

compose-pos :
    (a b c : ℕ) → compose_error_code (pos a) (pos b) (pos c) ≡ pos (a * 100000000 + b * 10000 + c)
unfolding compose_error_code
compose-pos a b c = ground arith

-- For an app code from 1 to 9, a biz code and a sub code from 1 to 9999, the full code has nine
-- digits (and so fits an int32), and no other such parts have the same full code.
pub compose_error_code_injective :
    (a b c a' b' c' : ℤ)
    → IsPart a (pos 9) × IsPart b (pos 9999) × IsPart c (pos 9999)
    → IsPart a' (pos 9) × IsPart b' (pos 9999) × IsPart c' (pos 9999)
    → (pos 100000000 ≤ℤ compose_error_code a b c)
      × (compose_error_code a b c ≤ℤ pos 999999999)
      × ((compose_error_code a b c ≡ compose_error_code a' b' c')
          ↔ ((a ≡ a') × (b ≡ b') × (c ≡ c')))
compose_error_code_injective (pos a) (pos b) (pos c) (pos a') (pos b') (pos c') h k =
    rw (compose-pos a b c, compose-pos a' b' c')
      (
        omega arith,
        omega arith,
        (
          λ e.
              let same : a * 100000000 + b * 10000 + c ≡ a' * 100000000 + b' * 10000 + c' =
                ap pos_part e in
              (ap pos (omega arith), ap pos (omega arith), ap pos (omega arith)),
          λ (p, q, r). ground arith,
        ),
      )
compose_error_code_injective _ _ _ _ _ _ h k = absurd (omega arith)

-- A character that a file name keeps: none of `-`, `.`, `/` and the blank.
abbrev pub IsPlain : ℕ → Type 0
IsPlain c = (c ≢ b'-') × (c ≢ b'.') × (c ≢ b'/') × (c ≢ b' ')

replace_marks-IsPlain : (s : Text) → All IsPlain (replace_marks s)
unfolding replace_marks
replace_marks-IsPlain [] = tt
replace_marks-IsPlain (c ∷ s) = (ground arith, replace_marks-IsPlain s)

abbrev pub StartsPlain : Text → Type 0
StartsPlain [] = ⊥
StartsPlain (c ∷ s) = (c < 48) ⊎ (57 < c)

finish_name-IsPlain :
    (s : Text) → All IsPlain s → All IsPlain (finish_name s) × StartsPlain (finish_name s)
unfolding finish_name
finish_name-IsPlain [] h = (omega arith, omega arith)
finish_name-IsPlain (c ∷ s) h = ground arith

-- A file name is not empty, does not begin with a digit, and holds no `-`, `.`, `/` or blank: the
-- output stays in its directory, whatever the name of the specification.
pub sanitize_file_name_lem :
    (lower : ℕ → ℕ) (name : Text)
    → All IsPlain (sanitize_file_name lower name) × StartsPlain (sanitize_file_name lower name)
unfolding sanitize_file_name
sanitize_file_name_lem lower name =
    finish_name-IsPlain (replace_marks (trim_space (to_lower lower name)))
      (replace_marks-IsPlain (trim_space (to_lower lower name)))
