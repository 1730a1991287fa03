-- ===== src/Errorx/Generator/Arguments/Printed.antt =====
-- That arguments which are written for a configuration are read as it.
use finokit.Base.{List, [], ◌∷◌, ◌++◌, Text, text, ok, ◌≡◌, refl}
use finokit.Errorx.Generator.{Config, validate_config}
use finokit.Errorx.Generator.Arguments.{
  errorx_import, positional, read_argument, read_name, find_flag, cut_value, set_flag, parse,
  defaults, parse_args,
}

-- The arguments of a configuration, each value behind an equals sign, or as an argument of its own.
abbrev pub joined_args : Config → List Text
joined_args cfg =
    (text "-out=" ++ cfg.output_dir)
    ∷ (text "--doc-out=" ++ cfg.doc_output)
    ∷ (text "-pkg=" ++ cfg.package_name)
    ∷ (text "-errorx-import=" ++ cfg.errorx_import)
    ∷ cfg.inputs

abbrev pub separate_args : Config → List Text
separate_args cfg =
    text "-out"
    ∷ cfg.output_dir
    ∷ text "-doc-out"
    ∷ cfg.doc_output
    ∷ text "-pkg"
    ∷ cfg.package_name
    ∷ text "--errorx-import"
    ∷ cfg.errorx_import
    ∷ cfg.inputs

-- The first of the inputs is not taken for a flag.
abbrev pub StartsPlain : List Text → Type 0
StartsPlain [] = ⊥
StartsPlain (i ∷ is) = read_argument i ≡ positional

parse_inputs : (is : List Text) (cfg : Config) → StartsPlain is → parse is cfg ≡ ok (cfg, is)
unfolding parse
parse_inputs [] cfg plain = absurd plain
parse_inputs (i ∷ []) cfg plain = rw (parse, plain) refl
parse_inputs (i ∷ j ∷ is) cfg plain = rw (parse, plain) refl

joined_import :
    (v : Text) (is : List Text) (cfg : Config)
    → StartsPlain is
    → parse ((text "-errorx-import=" ++ v) ∷ is) cfg ≡ ok (set_flag errorx_import v cfg, is)
unfolding parse read_argument read_name find_flag cut_value
joined_import v [] cfg plain = absurd plain
joined_import v (i ∷ is) cfg plain = parse_inputs (i ∷ is) (set_flag errorx_import v cfg) plain

parse-joined_args :
    (cfg : Config)
    → StartsPlain cfg.inputs
    → parse (joined_args cfg) defaults ≡ ok (record cfg { inputs = [] }, cfg.inputs)
unfolding parse read_argument read_name find_flag cut_value set_flag
parse-joined_args cfg plain =
    joined_import cfg.errorx_import cfg.inputs
      (record {
        inputs = [];
        output_dir = cfg.output_dir;
        doc_output = cfg.doc_output;
        package_name = cfg.package_name;
        errorx_import = text "github.com/fino-io/finokit/errorx";
      })
      plain

parse-separate_args :
    (cfg : Config)
    → StartsPlain cfg.inputs
    → parse (separate_args cfg) defaults ≡ ok (record cfg { inputs = [] }, cfg.inputs)
unfolding parse read_argument read_name find_flag cut_value set_flag
parse-separate_args cfg plain = parse_inputs cfg.inputs (record cfg { inputs = [] }) plain

parse_args-ok :
    (args : List Text) (cfg : Config)
    → parse args defaults ≡ ok (record cfg { inputs = [] }, cfg.inputs)
    → validate_config cfg ≡ ok tt
    → parse_args args ≡ ok cfg
unfolding parse_args
parse_args-ok args cfg parsed valid = rw (parsed, valid) refl

-- A configuration that is valid, whose first input is not taken for a flag: `ParseArgs` gives it back
-- from its arguments, whether each value stands behind an equals sign or as an argument of its own, and
-- whatever the values are, also empty or such that start with a minus sign.
pub parse_args-printed :
    (cfg : Config)
    → validate_config cfg ≡ ok tt
    → StartsPlain cfg.inputs
    → (parse_args (joined_args cfg) ≡ ok cfg) × (parse_args (separate_args cfg) ≡ ok cfg)
parse_args-printed cfg valid plain = (
  parse_args-ok (joined_args cfg) cfg (parse-joined_args cfg plain) valid,
  parse_args-ok (separate_args cfg) cfg (parse-separate_args cfg plain) valid,
)
