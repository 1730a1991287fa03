-- ===== src/Base/Strings.antt =====
-- Go strings as lists of code points, with the functions of package `strings` that the code calls.
use Prim.Native.Nat.{ℕ, ◌+◌}
use Prim.Native.Char.{code}
use Prim.Native.String.{String}
use mathlib.Core.Path.{◌≡◌, refl}
use mathlib.Core.Logic.{◌↔◌, inl, inr}
use mathlib.Core.Bool.{Bool, true, false, ◌&&◌, ◌||◌}
use mathlib.Core.List.{List, [], ◌∷◌}
use native.Mathlib.Omega.{arith}
use finokit.Base.Tests.{ltb, leb, ◌==◌, if◌then◌else◌, Bool-cases}
use finokit.Base.Lists.{is_empty}

abbrev pub Text : Type 0
Text = List ℕ

-- The code points of a literal.
abbrev pub text : String → Text
text String.[] = []
text (String.◌∷◌ c s) = code c ∷ text s

unfoldable pub text_eq : Text → Text → Bool
text_eq [] [] = true
text_eq [] (d ∷ t) = false
text_eq (c ∷ s) [] = false
text_eq (c ∷ s) (d ∷ t) = (c == d) && text_eq s t

pub text_eq-eq : (s t : Text) → text_eq s t ≡ true → s ≡ t
unfolding text_eq
text_eq-eq [] [] h = refl
text_eq-eq [] (d ∷ t) h = cc
text_eq-eq (c ∷ s) [] h = cc
text_eq-eq (c ∷ s) (d ∷ t) h = ground (arith, text_eq-eq s t)

pub text_eq_refl : (s : Text) → text_eq s s ≡ true
unfolding text_eq
text_eq_refl [] = refl
text_eq_refl (c ∷ s) = ground (arith, text_eq_refl s)

pub text_eq_iff : (s t : Text) → (text_eq s t ≡ true) ↔ (s ≡ t)
text_eq_iff s t = (text_eq-eq s t, λ e. subst_left e)
  where
    subst_left : s ≡ t → text_eq s t ≡ true
    subst_left e = rw e (text_eq_refl t)

-- `unicode.IsSpace`
unfoldable pub is_space : ℕ → Bool
is_space c =
    (leb 9 c && leb c 13)
    || c == 0x20
    || c == 0x85
    || c == 0xa0
    || c == 0x1680
    || (leb 0x2000 c && leb c 0x200a)
    || c == 0x2028
    || c == 0x2029
    || c == 0x202f
    || c == 0x205f
    || c == 0x3000

-- `strings.ToLower`; `lower` is `unicode.ToLower` beyond ASCII.
unfoldable pub to_lower : (ℕ → ℕ) → Text → Text
to_lower lower [] = []
to_lower lower (c ∷ s) =
    (if leb 65 c && leb c 90 then c + 32 else if ltb c 128 then c else lower c) ∷ to_lower lower s

unfoldable pub trim_left : Text → Text
trim_left [] = []
trim_left (c ∷ s) = if is_space c then trim_left s else c ∷ s

-- The text without the characters at its end that pass the test.
unfoldable pub trim_end : (ℕ → Bool) → Text → Text
trim_end p [] = []
trim_end p (c ∷ s) = let r = trim_end p s in if is_empty r && p c then [] else c ∷ r

-- `strings.TrimSpace`
unfoldable pub trim_space : Text → Text
unfolding trim_left trim_end is_space
trim_space s = trim_end is_space (trim_left s)

trim_end_idem : (p : ℕ → Bool) (s : Text) → trim_end p (trim_end p s) ≡ trim_end p s
unfolding trim_end
trim_end_idem p [] = refl
trim_end_idem p (c ∷ s) = ground (arith, trim_end_idem p s)

-- What starts with no such character keeps its head.
trim_end-head :
    (p : ℕ → Bool) (c : ℕ) (s : Text) → p c ≡ false → trim_end p (c ∷ s) ≡ c ∷ trim_end p s
unfolding trim_end
trim_end-head p c s h = ground arith

trim_left-head : (c : ℕ) (s : Text) → is_space c ≡ false → trim_left (c ∷ s) ≡ c ∷ s
unfolding trim_left
trim_left-head c s h = rw h

trim_left-trim_end-trim_left :
    (s : Text) → trim_left (trim_end is_space (trim_left s)) ≡ trim_end is_space (trim_left s)
trim_left-trim_end-trim_left [] = unfold trim_left trim_end in refl
trim_left-trim_end-trim_left (c ∷ s) = elim (Bool-cases (is_space c)) [
  | inl e ↦ rw (skip e) (trim_left-trim_end-trim_left s)
  | inr e ↦
      rw (trim_left-head c s e, trim_end-head is_space c s e)
        (trim_left-head c (trim_end is_space s) e)
]
  where
    skip : is_space c ≡ true → trim_left (c ∷ s) ≡ trim_left s
    skip e = unfold trim_left in rw e

-- Trimming twice is trimming once.
pub trim_space_idem : (s : Text) → trim_space (trim_space s) ≡ trim_space s
unfolding trim_space
trim_space_idem s = rw trim_left-trim_end-trim_left (trim_end_idem is_space (trim_left s))

-- Go's order of strings, on the code points.
unfoldable pub ltb_text : Text → Text → Bool
ltb_text [] [] = false
ltb_text [] (_ ∷ _) = true
ltb_text (_ ∷ _) [] = false
ltb_text (c ∷ s) (d ∷ t) =
    let rest = ltb_text s t in if ltb c d then true else if c == d then rest else false
