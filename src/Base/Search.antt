-- ===== src/Base/Search.antt =====
-- The functions of package `strings` that look for a part of a text.
use Prim.Native.Nat.{ℕ, zero, suc, ◌-◌}
use mathlib.Core.Path.{◌≡◌, refl}
use mathlib.Core.Logic.{◌≢◌}
use mathlib.Core.Bool.{Bool, true, false, ◌&&◌}
use mathlib.Core.List.{List, [], ◌∷◌, ◌++◌, reverse}
use mathlib.Core.Option
use mathlib.Core.Option.{Option, none, some}
use native.Mathlib.Omega.{arith}
use finokit.Base.Tests.{◌==◌, if◌then◌else◌}
use finokit.Base.Lists.{length, take, drop, All, is_empty}
use finokit.Base.Strings.{Text}

-- `strings.HasPrefix(s, p)`
unfoldable pub has_prefix : Text → Text → Bool
has_prefix s [] = true
has_prefix [] (d ∷ p) = false
has_prefix (c ∷ s) (d ∷ p) = (c == d) && has_prefix s p

-- `strings.HasSuffix(s, p)`
unfoldable pub has_suffix : Text → Text → Bool
unfolding has_prefix
has_suffix s p = has_prefix (reverse s) (reverse p)

-- `strings.TrimPrefix(s, p)`
unfoldable pub trim_prefix : Text → Text → Text
unfolding has_prefix
trim_prefix s p = if has_prefix s p then drop (length p) s else s

-- `strings.TrimSuffix(s, p)`
unfoldable pub trim_suffix : Text → Text → Text
unfolding has_suffix
trim_suffix s p = if has_suffix s p then take (length s - length p) s else s

-- `strings.Index(s, p)`
unfoldable pub index : Text → Text → Option ℕ
unfolding has_prefix
index [] p = if is_empty p then some 0 else none
index (c ∷ s) p =
    let rest = Option.map suc (index s p) in if has_prefix (c ∷ s) p then some 0 else rest

-- `strings.ReplaceAll(s, old, new)` for an `old` that is not empty; the number counts the
-- characters of a match that are still to be skipped.
unfoldable pub replace_from : ℕ → Text → Text → Text → Text
unfolding has_prefix
replace_from k [] old new = []
replace_from (suc k) (c ∷ s) old new = replace_from k s old new
replace_from zero (c ∷ s) old new = elim (has_prefix (c ∷ s) old) [
  | true ↦ new ++ replace_from (length (drop 1 old)) s old new
  | false ↦ c ∷ replace_from 0 s old new
]

unfoldable pub replace_all : Text → Text → Text → Text
unfolding replace_from
replace_all s old new = replace_from 0 s old new

-- `strings.Split(s, sep)` for a separator of one character, and its last piece so far
unfoldable pub split_at : ℕ → Text → Text → List Text
split_at sep cur [] = cur ∷ []
split_at sep cur (c ∷ s) = elim (c == sep) [
  | true ↦ cur ∷ split_at sep [] s
  | false ↦ split_at sep (cur ++ c ∷ []) s
]

unfoldable pub split : Text → ℕ → List Text
unfolding split_at
split s sep = split_at sep [] s

-- `strings.Join(parts, sep)`
unfoldable pub join : List Text → Text → Text
join [] sep = []
join (p ∷ []) sep = p
join (p ∷ q ∷ ps) sep = p ++ sep ++ join (q ∷ ps) sep

abbrev pub Lacks : ℕ → Text → Type 0
Lacks b = All (λ c. c ≢ b)

pub has_prefix-append : (p s : Text) → has_prefix (p ++ s) p ≡ true
unfolding has_prefix
has_prefix-append [] s = refl
has_prefix-append (c ∷ p) s = ground (arith, has_prefix-append p s)

replace_from-skip :
    (p s old new : Text) → replace_from (length p) (p ++ s) old new ≡ replace_from 0 s old new
unfolding replace_from
replace_from-skip [] s old new = refl
replace_from-skip (c ∷ p) s old new = replace_from-skip p s old new

-- The first match of a pattern that begins with a character not in `pre` is the one behind `pre`.
pub replace_all-append :
    (d : ℕ) (pre old post new : Text)
    → Lacks d pre
    → replace_all (pre ++ (d ∷ old) ++ post) (d ∷ old) new
      ≡ pre ++ new ++ replace_all post (d ∷ old) new
unfolding replace_all replace_from
replace_all-append d [] old post new h =
    ground (arith, has_prefix-append old post, replace_from-skip old post (d ∷ old) new)
replace_all-append d (c ∷ pre) old post new (hc, h) =
    ground (arith, replace_all-append d pre old post new h)

pub replace_all-Lacks : (d : ℕ) (s old new : Text) → Lacks d s → replace_all s (d ∷ old) new ≡ s
unfolding replace_all replace_from
replace_all-Lacks d [] old new h = refl
replace_all-Lacks d (c ∷ s) old new (hc, h) = ground (arith, replace_all-Lacks d s old new h)
