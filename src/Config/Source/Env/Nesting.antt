-- ===== src/Config/Source/Env/Nesting.antt =====
-- Where a variable's value stands in the map that it makes.
use mathlib.Core.List.{reverse, append_assoc, reverse-cons, reverse-reverse}
use finokit.Base.{
  ℕ, List, [], ◌∷◌, ◌++◌, Option, none, some, Bool, Text, text, split, join, split-join, to_lower,
  Lacks, All, ℤ, ◌≡◌, ◌≢◌, refl, ap, sym, ◌∙◌, arith,
}
use finokit.Config.Source.Env.{
  Value, Nested, empty, leaf, nest, cut, wrap, nest_keys, variable, parse_value,
}

-- The path to the value in a map, and the value.
unfoldable pub keys_of : {V : Type 0} → Nested V → List Text
keys_of empty = []
keys_of (leaf k v) = k ∷ []
keys_of (nest k n) = k ∷ keys_of n

unfoldable pub held : {V : Type 0} → Nested V → Option V
held empty = none
held (leaf k v) = some v
held (nest k n) = held n

module _ {V : Type 0} where
  keys_of-wrap : (ks : List Text) (n : Nested V) → keys_of (wrap n ks) ≡ reverse ks ++ keys_of n
  unfolding wrap keys_of
  keys_of-wrap [] n = refl
  keys_of-wrap (k ∷ ks) n =
      keys_of-wrap ks (nest k n)
      ∙ sym (append_assoc (reverse ks) (k ∷ []) (keys_of n))
      ∙ ap (λ r. r ++ keys_of n) (sym (reverse-cons k ks))

  held-wrap : (ks : List Text) (n : Nested V) → held (wrap n ks) ≡ held n
  unfolding wrap held
  held-wrap [] n = refl
  held-wrap (k ∷ ks) n = held-wrap ks (nest k n)

  nest_keys_at :
      (keys : List Text) (v : V) (r : List Text)
      → reverse keys ≡ r
      → keys ≢ []
      → (keys_of (nest_keys keys v) ≡ keys) × (held (nest_keys keys v) ≡ some v)
  unfolding nest_keys keys_of held
  nest_keys_at keys v [] e some_keys =
      absurd (some_keys (sym (reverse-reverse keys) ∙ ap reverse e))
  nest_keys_at keys v (k ∷ ks) e some_keys = (
    rw (nest_keys, e)
        (keys_of-wrap ks (leaf k v)
          ∙ sym (reverse-cons k ks)
          ∙ ap reverse (sym e)
          ∙ reverse-reverse keys),
    rw (nest_keys, e) (held-wrap ks (leaf k v)),
  )

cut-append : (name value : Text) → Lacks b'=' name → cut (name ++ b'=' ∷ value) ≡ some (name, value)
unfolding cut
cut-append [] value h = refl
cut-append (c ∷ name) value (hc, h) = ground (arith, cut-append name value h)

-- A variable whose name has no equals sign, and in lower case consists of at least one key, joined by
-- underscores that are in none of them, makes a map in which those keys lead, from the outermost on, to
-- the value that stands behind the first equals sign, read as a number, a Boolean or a text.
pub variable_lem :
    (atoi : Text → Option ℤ) (parse_bool : Text → Option Bool) (lower : ℕ → ℕ) (name value p : Text)
    (ps : List Text)
    → Lacks b'=' name
    → to_lower lower name ≡ join (p ∷ ps) (text "_")
    → All (Lacks b'_') (p ∷ ps)
    → (n : Nested Value) × (variable atoi parse_bool lower (name ++ b'=' ∷ value) ≡ some n)
      × (keys_of n ≡ p ∷ ps)
      × (held n ≡ some (parse_value atoi parse_bool lower value))
unfolding variable
variable_lem atoi parse_bool lower name value p ps no_equals lowered keys =
    let cuts = cut-append name value no_equals in
    let splits : split (to_lower lower name) b'_' ≡ p ∷ ps =
      ap (λ n. split n b'_') lowered ∙ split-join b'_' p ps keys in
    let n = nest_keys (p ∷ ps) (parse_value atoi parse_bool lower value) in
    let (path, value_there) =
      nest_keys_at (p ∷ ps) (parse_value atoi parse_bool lower value) (reverse (p ∷ ps)) refl cc in
    (n, rw (variable, cuts, splits) refl, path, value_there)
