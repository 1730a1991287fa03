-- ===== src/Config/Reader.antt =====
-- config/reader/: the merging of change sets, the replacing of environment variables, and the values
-- that are read from JSON. The codecs, mergo, simplejson and the parsers are arguments.
pub mod Variables
pub mod Encodings
pub mod Json
mod Tests
use finokit.Base.{
  ℕ, zero, suc, ◌+◌, ◌==◌, List, [], ◌∷◌, ◌++◌, Option, none, some, Bool, true, false, not, ◌&&◌,
  ◌||◌, leb, length, drop, take, Text, text, text_eq, is_empty, split, Result, ok, err, ◌>>=◌, ◌>>◌,
  refuse_if, map_err, ℤ, if◌then◌else◌,
}
use finokit.Config.Source.{ChangeSet, summed}

-- `[A-Za-z0-9_]`
unfoldable pub is_word : ℕ → Bool
is_word c = (leb 65 c && leb c 90) || (leb 97 c && leb c 122) || (leb 48 c && leb c 57) || c == b'_'

-- What stands before a closing brace, of word characters, with those so far.
unfoldable pub word_before : Text → Text → Option Text
unfolding is_word
word_before cur [] = none
word_before cur (c ∷ s) =
    let rest = word_before (cur ++ c ∷ []) s in
    if c == b'}'
    then (if is_empty cur then none else some cur)
    else if is_word c
    then rest
    else none

-- The name of the variable that the expression `\$\{([A-Za-z0-9_]+)\}` finds at the start of a text.
unfoldable pub match_var : Text → Option Text
unfolding word_before
match_var [] = none
match_var (c ∷ []) = none
match_var (c ∷ d ∷ s) = if c == b'$' && d == b'{' then word_before [] s else none

-- `ReplaceEnvVars`; the number counts the characters of a match that are still to be passed over.
unfoldable pub replace_vars : (Text → Text) → ℕ → Text → Text
unfolding match_var
replace_vars getenv k [] = []
replace_vars getenv (suc k) (c ∷ s) = replace_vars getenv k s
replace_vars getenv zero (c ∷ s) = elim (match_var (c ∷ s)) [
  | none ↦ c ∷ replace_vars getenv 0 s
  | some name ↦ getenv name ++ replace_vars getenv (length name + 2) s
]

unfoldable pub replace_env_vars : (Text → Text) → Text → Text
unfolding replace_vars
replace_env_vars getenv raw = replace_vars getenv 0 raw

pub data Error : Type 0 where
  nil_change_set unsupported_format : Error
  outside : Text → Error

-- The codecs by their format, the one of JSON, and mergo with override, over a type of maps.
pub record Codecs (D : Type 0) : Type 0 where
  pub encoding : Text → Option (Text → Result Text D)
  pub decode_json : Text → Result Text D
  pub encode_json : D → Result Text Text
  pub override : D → D → Result Text D
  pub nothing : D

abbrev pub or_outside {ℓ} : {A : Type ℓ} → Result Text A → Result Error A
or_outside r = map_err outside r

module _ {D : Type 0} (codecs : Codecs D) where
  -- The codec of the format, or that of JSON.
  unfoldable pub decode : ChangeSet → Result Text D
  decode m = elim (codecs.encoding m.format) [
    | none ↦ codecs.decode_json m.content
    | some codec ↦ codec m.content
  ]

  unfoldable pub merge_each : List (Option ChangeSet) → D → Result Error D
  unfolding decode
  merge_each [] merged = ok merged
  merge_each (none ∷ changes) merged = merge_each changes merged
  merge_each (some m ∷ changes) merged = elim (is_empty m.content) [
    | true ↦ merge_each changes merged
    | false ↦ elim (decode m) [
      | err e ↦ err (outside e)
      | ok map_ ↦ elim (codecs.override merged map_) [
        | err e ↦ err (outside e)
        | ok merged' ↦ merge_each changes merged'
      ]
    ]
  ]

  unfoldable pub merge : (Text → Text) → ℤ → List (Option ChangeSet) → Result Error ChangeSet
  unfolding merge_each summed
  merge hash now changes = do
    merged ← merge_each changes codecs.nothing
    b ← or_outside (codecs.encode_json merged)
    ok (
        summed hash (record {
          content = b;
          checksum = [];
          format = text "json";
          source = text "json";
          timestamp = now;
        }))

-- What the code uses of simplejson, on a type of documents.
pub record Simple (J : Type 0) : Type 0 where
  pub new : J
  pub unmarshal : Text → Option J
  pub string : Text → J
  pub set_path : List Text → J → J → J
  pub del : Text → J → J
  pub get_path : List Text → J → J
  pub marshal : J → Result Text Text
  pub is_nil : J → Bool
  pub is_empty_map : J → Bool
  pub as_bool : J → Option Bool
  pub as_int : J → Option ℤ
  pub as_text : J → Option Text
  pub as_texts : J → Option (List Text)

module _ {J : Type 0} (sj : Simple J) where
  -- `newValues`: a content that is no JSON is kept as a text, as it was before the replacement.
  unfoldable pub new_values : (Text → Text) → ChangeSet → J
  unfolding replace_env_vars
  new_values getenv ch = elim (sj.unmarshal (replace_env_vars getenv ch.content)) [
    | some j ↦ j
    | none ↦ sj.set_path [] (sj.string ch.content) sj.new
  ]

  unfoldable pub values : (Text → Text) → Option ChangeSet → Result Error J
  unfolding new_values text_eq
  values getenv none = err nil_change_set
  values getenv (some ch) = do
    refuse_if (not (text_eq ch.format (text "json"))) unsupported_format
    ok (new_values getenv ch)

  abbrev pub last_key : Text → List Text → List Text × Text
  last_key k [] = ([], k)
  last_key k (k' ∷ ks) = let (front, last) = last_key k' ks in (k ∷ front, last)

  unfoldable pub del : List Text → J → J
  del [] j = sj.new
  del (k ∷ []) j = sj.del k j
  del (k ∷ k' ∷ ks) j =
      let (front, last) = last_key k (k' ∷ ks) in
      sj.set_path front (sj.del last (sj.get_path front j)) j

  unfoldable pub null : J → Bool
  null j = sj.is_nil j || sj.is_empty_map j

  -- The getters: the value itself, or what its text is parsed to, or the default.
  unfoldable pub bool : (Text → Option Bool) → Bool → J → Bool
  bool parse def j = elim (sj.as_bool j) [
    | some b ↦ b
    | none ↦ elim (sj.as_text j) [
      | none ↦ def
      | some s ↦ elim (parse s) [ none ↦ def | some b ↦ b ]
    ]
  ]

  unfoldable pub int : (Text → Option ℤ) → ℤ → J → ℤ
  int parse def j = elim (sj.as_int j) [
    | some i ↦ i
    | none ↦ elim (sj.as_text j) [
      | none ↦ def
      | some s ↦ elim (parse s) [ none ↦ def | some i ↦ i ]
    ]
  ]

  unfoldable pub string : Text → J → Text
  string def j = elim (sj.as_text j) [ none ↦ def | some s ↦ s ]

  unfoldable pub duration : (Text → Option ℤ) → ℤ → J → ℤ
  duration parse def j = elim (sj.as_text j) [
    | none ↦ def
    | some s ↦ elim (parse s) [ none ↦ def | some d ↦ d ]
  ]

  unfoldable pub string_slice : List Text → J → List Text
  unfolding split
  string_slice def j = elim (sj.as_text j) [
    | some s ↦ split s b','
    | none ↦ elim (sj.as_texts j) [ none ↦ def | some ss ↦ ss ]
  ]

  unfoldable pub bytes : (J → Option Text) → J → Text
  bytes as_bytes j = elim (as_bytes j) [
    | some b ↦ b
    | none ↦ elim (sj.marshal j) [ ok b ↦ b | err e ↦ [] ]
  ]

  -- `Scan`: the defaults of a structure's tags are set first, also where the value is null.
  unfoldable pub scan :
      {T : Type 0}
      → (T → Bool)
      → (T → Option Text × T)
      → (Text → T → Result Text T)
      → J
      → T
      → Result Text T
  unfolding text_eq
  scan is_struct load_tags decode j v = do
    b ← sj.marshal j
    let (e, v') = if is_struct v then load_tags v else (none, v)
    elim e [ some x ↦ err x | none ↦ if text_eq b (text "null") then ok v' else decode b v' ]
