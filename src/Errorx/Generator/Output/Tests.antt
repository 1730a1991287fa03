-- ===== src/Errorx/Generator/Output/Tests.antt =====
-- A run of the generator on one file, where writing keeps the paths.
use finokit.Base.{List, [], ◌∷◌, ◌++◌, none, Text, text, text_eq, ok, pos, ◌≡◌, refl}
use finokit.Errorx.Generator.{Config, File}
use finokit.Errorx.Generator.Output.{System, collect_yaml_files, generate}
use finokit.Errorx.Generator.Output.Unordered.{swapped}
use finokit.Errorx.Generator.Output.Orders.{generate-Reordered}
use finokit.Errorx.Generator.Output.Paths.{Generated, generate_lem}

abbrev spec : File
spec = record {
  app_code = pos 1;
  biz_code = pos 2;
  error_code =
      record {
        code = pos 3;
        name = text "NotFound";
        message = [];
        description = [];
        count_in_sla = none;
        http_status = pos 404;
      }
      ∷ [];
}

abbrev system : System (List Text)
system = record {
  list_below = λ input. ok none;
  load_spec = λ path. ok spec;
  ext = λ path. text ".yaml";
  base = λ path. path;
  join = λ a b. a ++ text "/" ++ b;
  quote = λ s. s;
  format_source = λ s. ok s;
  write_file = λ path source w. (none, path ∷ w);
  equal_fold = text_eq;
  lower = λ c. c;
}

abbrev config : Config
config = record {
  inputs = text "user.yaml" ∷ [];
  output_dir = text "out";
  doc_output = [];
  package_name = text "errcode";
  errorx_import = text "errorx";
}

generate_lem_example : Generated system config []
generate_lem_example = generate_lem system config []

abbrev two_inputs : Config
two_inputs = record config { inputs = text "user.yaml" ∷ text "order.yaml" ∷ [] }

abbrev turned : List Text
turned = text "order.yaml" ∷ text "user.yaml" ∷ []

two_collected : collect_yaml_files system two_inputs.inputs ≡ ok turned
unfolding collect_yaml_files
two_collected = refl

generate-Reordered_example :
    generate system (record two_inputs { inputs = turned }) [] ≡ generate system two_inputs []
generate-Reordered_example =
    generate-Reordered system two_inputs turned turned []
      (swapped (text "user.yaml") (text "order.yaml") []) two_collected
