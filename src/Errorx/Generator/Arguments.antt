-- ===== src/Errorx/Generator/Arguments.antt =====
-- errorx/generator/generator.go: `Run` and `ParseArgs`, with the parser of package flag for the four flags,
-- which take a text each.
pub mod Printed
mod Tests
use finokit.Base.{
  ℕ, List, [], ◌∷◌, ◌++◌, Option, none, some, Bool, true, false, ◌||◌, ◌==◌, Text, text, text_eq,
  is_empty, Result, ok, err, ◌>>=◌, map_err, if◌then◌else◌,
}
use finokit.Errorx.Generator
use finokit.Errorx.Generator.{Config, validate_config}
use finokit.Errorx.Generator.Output
use finokit.Errorx.Generator.Output.{System, generate}

pub data Error : Type 0 where
  bad_syntax undefined missing_value help : Text → Error
  refused : Generator.Error → Error

pub data Name : Type 0 where
  output_dir doc_output package_name errorx_import : Name

-- What an argument is to the parser: no flag, the end of the flags, a flag with its value if it stands
-- behind an equals sign, or an error.
pub data Read : Type 0 where
  positional terminator : Read
  flag_of : Name → Option Text → Read
  faulty : Error → Read

unfoldable pub find_flag : Text → Option Name
unfolding text_eq
find_flag n =
    if text_eq n (text "out")
    then some output_dir
    else if text_eq n (text "doc-out")
    then some doc_output
    else if text_eq n (text "pkg")
    then some package_name
    else if text_eq n (text "errorx-import")
    then some errorx_import
    else none

unfoldable pub cut_value : Text → Text × Option Text
cut_value [] = ([], none)
cut_value (c ∷ s) =
    let rest = cut_value s in if c == b'=' then ([], some s) else (c ∷ rest.0, rest.1)

-- What stands behind the minus signs.
unfoldable pub read_name : Text → Read
unfolding find_flag cut_value text_eq
read_name [] = faulty (bad_syntax [])
read_name (c ∷ s) =
    let (n, v) = cut_value (c ∷ s) in
    let unknown : Error =
      if text_eq n (text "help") || text_eq n (text "h") then help n else undefined n in
    let found : Read = elim (find_flag n) [ none ↦ faulty unknown | some name ↦ flag_of name v ] in
    if c == b'-' || c == b'=' then faulty (bad_syntax (c ∷ s)) else found

-- `parseOne` of package flag, up to the value.
unfoldable pub read_argument : Text → Read
unfolding read_name
read_argument [] = positional
read_argument (c ∷ []) = positional
read_argument (c ∷ d ∷ s) =
    let double : Read = if is_empty s then terminator else read_name s in
    if c == b'-' then (if d == b'-' then double else read_name (d ∷ s)) else positional

unfoldable pub set_flag : Name → Text → Config → Config
set_flag output_dir v cfg = record cfg { output_dir = v }
set_flag doc_output v cfg = record cfg { doc_output = v }
set_flag package_name v cfg = record cfg { package_name = v }
set_flag errorx_import v cfg = record cfg { errorx_import = v }

-- `flagSet.Parse`: the configuration, and what is left when an argument is no flag.
unfoldable pub parse : List Text → Config → Result Error (Config × List Text)
unfolding read_argument set_flag
parse [] cfg = ok (cfg, [])
parse (a ∷ []) cfg = elim (read_argument a) [
  | positional ↦ ok (cfg, a ∷ [])
  | terminator ↦ ok (cfg, [])
  | faulty e ↦ err e
  | flag_of name v ↦ elim v [ none ↦ err (missing_value a) | some t ↦ ok (set_flag name t cfg, []) ]
]
parse (a ∷ b ∷ args) cfg = elim (read_argument a) [
  | positional ↦ ok (cfg, a ∷ b ∷ args)
  | terminator ↦ ok (cfg, b ∷ args)
  | faulty e ↦ err e
  | flag_of name v ↦ elim v [
    | none ↦ parse args (set_flag name b cfg)
    | some t ↦ parse (b ∷ args) (set_flag name t cfg)
  ]
]

abbrev pub defaults : Config
defaults = record {
  inputs = [];
  output_dir = text ".";
  doc_output = [];
  package_name = text "errcode";
  errorx_import = text "github.com/fino-io/finokit/errorx";
}

abbrev pub or_refused {ℓ} : {A : Type ℓ} → Result Generator.Error A → Result Error A
or_refused r = map_err refused r

-- `ParseArgs`; with any error it prints the usage.
unfoldable pub parse_args : List Text → Result Error Config
unfolding parse validate_config
parse_args args = do
  (cfg, left) ← parse args defaults
  let full : Config = record cfg { inputs = left }
  _ ← or_refused (validate_config full)
  ok full

-- How `Run` fails: in the arguments, with the usage printed, or in `Generate`.
pub data Failure : Type 0 where
  usage : Error → Failure
  generating : Output.Error → Failure

-- `Run`: the paths that it prints.
unfoldable pub run : {W : Type 0} → System W → List Text → W → Result Failure (List Text) × W
unfolding parse_args generate
run sys args w = elim (parse_args args) [
  | err e ↦ (err (usage e), w)
  | ok cfg ↦ let (paths, w') = generate sys cfg w in (map_err generating paths, w')
]
