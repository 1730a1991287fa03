-- ===== src/Errorx/Generator/Arguments/Tests.antt =====
-- The arguments of a small configuration.
use finokit.Base.{[], ◌∷◌, text, ok, err, ◌≡◌, refl}
use finokit.Errorx.Generator.{Config, validate_config}
use finokit.Errorx.Generator.Arguments.{positional, parse_args, read_argument, undefined}
use finokit.Errorx.Generator.Arguments.Printed.{joined_args, separate_args, parse_args-printed}

abbrev small : Config
small = record {
  inputs = text "errors.yaml" ∷ text "-x" ∷ [];
  output_dir = text "a=b";
  doc_output = text "-";
  package_name = text "codes";
  errorx_import = text "x/errorx";
}

small_is_valid : validate_config small ≡ ok tt
unfolding validate_config
small_is_valid = refl

plain_input : read_argument (text "errors.yaml") ≡ positional
unfolding read_argument
plain_input = refl

parse_args-printed_example :
    (parse_args (joined_args small) ≡ ok small) × (parse_args (separate_args small) ≡ ok small)
parse_args-printed_example = parse_args-printed small small_is_valid plain_input

unknown_flag : parse_args (text "-o" ∷ []) ≡ err (undefined (text "o"))
unfolding parse_args
unknown_flag = refl
