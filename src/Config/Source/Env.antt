-- ===== src/Config/Source/Env.antt =====
-- config/source/env/ and config/source/flag/: the variables of the environment, or the flags, as a
-- source. The merging of maps (mergo), the parsers of strconv and the encoder are arguments.
pub mod Nesting
mod Tests
use finokit.Base.{
  ℕ, List, [], ◌∷◌, ◌++◌, Option, none, some, Bool, true, false, not, ◌&&◌, ◌||◌, ◌==◌, Text, text,
  is_empty, split, to_lower, has_prefix, has_suffix, trim_prefix, Result, ok, err, ◌>>=◌, ◌>>◌,
  refuse_if, ℤ, if◌then◌else◌,
}
use mathlib.Core.List.{reverse}
use finokit.Config.Source.{ChangeSet, summed}

pub data Value : Type 0 where
  number : ℤ → Value
  boolean : Bool → Value
  string : Text → Value

-- The map that one variable makes: without a key, or with one that holds the value or such a map.
pub data Nested (V : Type 0) : Type 0 where
  empty : Nested V
  leaf : Text → V → Nested V
  nest : Text → Nested V → Nested V

pub data Error : Type 0 where
  not_parsed no_value : Error
  outside : Text → Error

unfoldable pub match_prefix : List Text → Text → Option Text
unfolding has_prefix
match_prefix [] s = none
match_prefix (p ∷ pre) s = let rest = match_prefix pre s in if has_prefix s p then some p else rest

-- The variable that is read, its matched prefix removed where it is one of those to be stripped.
unfoldable pub select : List Text → List Text → Text → Option Text
unfolding match_prefix trim_prefix
select prefixes stripped env =
    if is_empty prefixes && is_empty stripped then some env else elim (match_prefix stripped env) [
      | some p ↦ some (trim_prefix env p)
      | none ↦ elim (match_prefix prefixes env) [ none ↦ none | some p ↦ some env ]
    ]

-- `strings.SplitN(s, "=", 2)`, none where there is no second part.
unfoldable pub cut : Text → Option (Text × Text)
cut [] = none
cut (c ∷ s) =
    let rest = cut s in
    if c == b'=' then some ([], s) else elim rest [ none ↦ none | some (a, b) ↦ some (c ∷ a, b) ]

-- The loop over the reversed keys: the first is the innermost.
unfoldable pub wrap : {V : Type 0} → Nested V → List Text → Nested V
wrap tmp [] = tmp
wrap tmp (k ∷ keys) = wrap (nest k tmp) keys

unfoldable pub nest_keys : {V : Type 0} → List Text → V → Nested V
unfolding wrap
nest_keys keys value = elim (reverse keys) [ [] ↦ empty | k ∷ ks ↦ wrap (leaf k value) ks ]

module _ (atoi : Text → Option ℤ) (parse_bool : Text → Option Bool) (lower : ℕ → ℕ) where
  unfoldable pub parse_value : Text → Value
  parse_value value = elim (atoi value) [
    | some n ↦ number n
    | none ↦ elim (parse_bool value) [ some b ↦ boolean b | none ↦ string value ]
  ]

  -- The map of one variable.
  unfoldable pub variable : Text → Option (Nested Value)
  unfolding cut nest_keys parse_value to_lower split
  variable env = elim (cut env) [
    | none ↦ none
    | some (name, value) ↦ some (nest_keys (split (to_lower lower name) b'_') (parse_value value))
  ]

  module _ {Changes : Type 0} (merge : Changes → Nested Value → Option Text × Changes) where
    -- The loop of `Read`. A variable without `=` would be an index out of range.
    unfoldable pub read_each : List Text → List Text → List Text → Changes → Result Error Changes
    unfolding select variable
    read_each prefixes stripped [] changes = ok changes
    read_each prefixes stripped (env ∷ envs) changes = elim (select prefixes stripped env) [
      | none ↦ read_each prefixes stripped envs changes
      | some env' ↦ elim (variable env') [
        | none ↦ err no_value
        | some tmp ↦
            let (e, changes') = merge changes tmp in
            elim e [ some x ↦ err (outside x) | none ↦ read_each prefixes stripped envs changes' ]
      ]
    ]

    -- `Read`; `encode` is the encoder's, with its format.
    unfoldable pub read :
        (Text → Text)
        → (Changes → Result Text Text)
        → Text
        → List Text
        → List Text
        → List Text
        → Changes
        → ℤ
        → Result Error ChangeSet
    unfolding read_each summed
    read hash encode encoder prefixes stripped environ nothing now = do
      changes ← read_each prefixes stripped environ nothing
      b ← elim (encode changes) [ ok b ↦ ok b | err e ↦ err (outside e) ]
      ok (
          summed hash (record {
            content = b;
            checksum = [];
            format = encoder;
            source = text "env";
            timestamp = now;
          }))

unfoldable pub append_underscore : List Text → List Text
unfolding has_suffix
append_underscore [] = []
append_underscore (p ∷ prefixes) =
    (if has_suffix p (text "_") then p else p ++ text "_") ∷ append_underscore prefixes

-- The prefixes of `NewSource`: the defaults are added where any are given.
unfoldable pub prefixes_of : List Text → List Text → List Text → List Text
prefixes_of defaults pre stripped =
    if is_empty pre then (if is_empty stripped then pre else pre ++ defaults) else pre ++ defaults

-- flag/: `strings.FieldsFunc(n, split)`, with the piece so far.
unfoldable pub is_delimiter : ℕ → Bool
is_delimiter r = r == b'-' || r == b'_'

unfoldable pub fields : Text → Text → List Text
unfolding is_delimiter
fields cur [] = if is_empty cur then [] else cur ∷ []
fields cur (c ∷ s) =
    let later = fields [] s in
    let longer = fields (cur ++ c ∷ []) s in
    if is_delimiter c then (if is_empty cur then later else cur ∷ later) else longer

module _ {Changes V : Type 0} (lower : ℕ → ℕ)
    (merge : Changes → Nested V → Option Text × Changes) where
  -- The visit of each flag, its name with its value; an error of the merging is dropped.
  unfoldable pub visit_each : List (Text × V) → Changes → Changes
  unfolding fields nest_keys to_lower
  visit_each [] changes = changes
  visit_each ((name, value) ∷ flags) changes =
      visit_each flags (merge changes (nest_keys (fields [] (to_lower lower name)) value)).1

  unfoldable pub read_flags :
      (Text → Text)
      → (Changes → Result Text Text)
      → Text
      → Bool
      → List (Text × V)
      → Changes
      → ℤ
      → Result Error ChangeSet
  unfolding visit_each summed
  read_flags hash encode encoder parsed flags nothing now = do
    refuse_if (not parsed) not_parsed
    b ← elim (encode (visit_each flags nothing)) [ ok b ↦ ok b | err e ↦ err (outside e) ]
    ok (
        summed hash (record {
          content = b;
          checksum = [];
          format = encoder;
          source = text "flag";
          timestamp = now;
        }))
