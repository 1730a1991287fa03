-- ===== src/Config/Reader/Json.antt =====
-- config/reader/json/values.go: the values as a whole, and the getters of decimal numbers and of maps. A
-- decimal number is a type, and so is the target of a scan.
use finokit.Base.{
  List, [], ◌∷◌, Option, none, some, Bool, Text, Result, ok, err, ◌>>=◌, ℤ, if◌then◌else◌, not,
}
use finokit.Config.Reader.{Simple, replace_env_vars}

-- What the code uses of simplejson, mapstructure and jsoniter besides.
pub record Decodes (J V F T : Type 0) : Type 0 where
  pub as_map : J → Option (List (Text × V))
  pub as_float : J → Option F
  pub parse_float : Text → Option F
  -- `fmt.Sprintf("%v", v)`
  pub sprint : V → Text
  pub of_any : V → J
  pub unmarshal_any : Text → Result Text V
  -- a decoder for a target, unless the target cannot have one, and its run
  pub decoder_for : T → Option Text
  pub decode : V → T → Result Text T

module _ {J V F T : Type 0} (sj : Simple J) (ds : Decodes J V F T) where
  -- `NewValues`: a content that is no JSON is kept as a text, after the replacement.
  unfoldable pub new_values_of : (Text → Text) → Text → J
  unfolding replace_env_vars
  new_values_of getenv val =
      let replaced = replace_env_vars getenv val in
      elim (sj.unmarshal replaced) [
        | some j ↦ j
        | none ↦ sj.set_path [] (sj.string replaced) sj.new
      ]

  unfoldable pub get : List Text → J → J
  get path j = sj.get_path path j

  unfoldable pub set : V → List Text → J → J
  set val path j = sj.set_path path (ds.of_any val) j

  unfoldable pub all_bytes : J → Text
  all_bytes j = elim (sj.marshal j) [ ok b ↦ b | err e ↦ [] ]

  -- A map of none is nil.
  unfoldable pub map_of : J → Option (List (Text × V))
  map_of j = ds.as_map j

  unfoldable pub decode_config_value : Text → T → Result Text T
  decode_config_value b v = do
    content ← ds.unmarshal_any b
    elim (ds.decoder_for v) [ some e ↦ err e | none ↦ ds.decode content v ]

  unfoldable pub scan_all : J → T → Result Text T
  unfolding decode_config_value
  scan_all j v = do b ← sj.marshal j; decode_config_value b v

  unfoldable pub float_64 : F → J → F
  float_64 def j = elim (ds.as_float j) [
    | some f ↦ f
    | none ↦ elim (sj.as_text j) [
      | none ↦ def
      | some s ↦ elim (ds.parse_float s) [ none ↦ def | some f ↦ f ]
    ]
  ]

  abbrev pub sprint_each : List (Text × V) → List (Text × Text)
  sprint_each [] = []
  sprint_each ((k, v) ∷ m) = (k, ds.sprint v) ∷ sprint_each m

  unfoldable pub string_map : List (Text × Text) → J → List (Text × Text)
  string_map def j = elim (ds.as_map j) [ none ↦ def | some m ↦ sprint_each m ]

-- What a hook of mapstructure is called with: whether the value is a text, and whether a duration is wanted;
-- a text that is none is another value.
pub data Hooked (V : Type 0) : Type 0 where
  kept : V → Hooked V
  duration : Result Text ℤ → Hooked V

unfoldable pub string_to_duration :
    {V : Type 0} → (Text → Result Text ℤ) → Option Text → Bool → V → Hooked V
string_to_duration parse none to_duration value = kept value
string_to_duration parse (some s) to_duration value =
    if not to_duration then kept value else duration (parse s)
