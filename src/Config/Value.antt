-- ===== src/Config/Value.antt =====
-- config/value.go: the value that stands for none, which the configuration gives before anything was
-- parsed. Decimal numbers are a type, and a target that is scanned into stays as it is.
use finokit.Base.{
  List, [], Option, none, Bool, true, false, Text, Result, ok, ℤ, pos, ◌≡◌, ◌≢◌, refl,
}
use finokit.Config.Reader
use finokit.Config.Reader.{Simple}

abbrev pub null : Bool
null = true

abbrev pub bool : Bool → Bool
bool def = false

abbrev pub int : ℤ → ℤ
int def = pos 0

abbrev pub string : Text → Text
string def = []

abbrev pub float_64 : {F : Type 0} → F → F → F
float_64 zero_float def = zero_float

abbrev pub duration : ℤ → ℤ
duration def = pos 0

-- A nil list is empty.
abbrev pub string_slice : List Text → List Text
string_slice def = []

abbrev pub string_map : List (Text × Text) → List (Text × Text)
string_map def = []

abbrev pub scan : {T : Type 0} → T → Result Text T
scan val = ok val

abbrev pub bytes : Text
bytes = []

-- Of a JSON value that holds neither a value of the wanted type nor a text, the getters return the default
-- that they are given, but those of the value for none do not: a Boolean is false also where true is the
-- default, and a number is 0.
defaults_are_ignored :
    {J : Type 0} (sj : Simple J) (parse_bool : Text → Option Bool) (parse_int : Text → Option ℤ)
    (j : J)
    → sj.as_bool j ≡ none
    → sj.as_int j ≡ none
    → sj.as_text j ≡ none
    → (Reader.bool sj parse_bool true j ≡ true)
      × (bool true ≢ true)
      × (Reader.int sj parse_int (pos 7) j ≡ pos 7)
      × (int (pos 7) ≢ pos 7)
unfolding Reader.bool Reader.int
defaults_are_ignored sj parse_bool parse_int j no_bool no_int no_text =
    (rw (Reader.bool, no_bool, no_text) refl, cc, rw (Reader.int, no_int, no_text) refl, cc)
