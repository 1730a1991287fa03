-- ===== src/Errorx/Generator/Output.antt =====
-- errorx/generator/generator.go: `Generate`, from the inputs to the files that are written. The file
-- system, YAML and `go/format` are arguments.
pub mod Paths
pub mod Unordered
pub mod Sorting
pub mod Orders
mod Tests
use finokit.Base.{
  ℕ, List, [], ◌∷◌, ◌++◌, Option, none, some, Bool, not, ◌||◌, Text, text, text_eq, is_empty,
  trim_space, to_lower, trim_suffix, ltb_text, Result, ok, err, ◌>>=◌, ◌>>◌, refuse_if, map_err,
  if◌then◌else◌,
}
use finokit.Errorx.Generator
use finokit.Errorx.Generator.{
  Config, Definition, File, InputFile, with_defaults, validate_config, validate_spec,
  validate_input_files, sanitize_file_name, write_definition, write_functions,
}
use finokit.Errorx.Generator.Markdown.{markdown}

pub data Error : Type 0 where
  invalid : Generator.Error → Error
  unsupported_type no_yaml_files : Error
  outside : Text → Error

-- What the generator uses of the system, on a file system W.
pub record System (W : Type 0) : Type 0 where
  -- the paths below a directory in the order of the walk, none for a file
  pub list_below : Text → Result Text (Option (List Text))
  pub load_spec : Text → Result Text File
  pub ext : Text → Text
  pub base : Text → Text
  pub join : Text → Text → Text
  pub quote : Text → Text
  pub format_source : Text → Result Text Text
  -- MkdirAll of the directory, then WriteFile
  pub write_file : Text → Text → W → Option Text × W
  pub equal_fold : Text → Text → Bool
  pub lower : ℕ → ℕ

abbrev pub or_invalid {ℓ} : {A : Type ℓ} → Result Generator.Error A → Result Error A
or_invalid r = map_err invalid r

abbrev pub or_outside {ℓ} : {A : Type ℓ} → Result Text A → Result Error A
or_outside r = map_err outside r

-- `sort.Strings`
unfoldable pub insert_text : Text → List Text → List Text
unfolding ltb_text
insert_text s [] = s ∷ []
insert_text s (t ∷ ts) =
    let later = insert_text s ts in if ltb_text t s then t ∷ later else s ∷ t ∷ ts

unfoldable pub sort_texts : List Text → List Text
unfolding insert_text
sort_texts [] = []
sort_texts (s ∷ ss) = insert_text s (sort_texts ss)

module _ {W : Type 0} (sys : System W) where
  unfoldable pub is_yaml_file : Text → Bool
  unfolding text_eq to_lower
  is_yaml_file path =
      let ext = to_lower sys.lower (sys.ext path) in
      text_eq ext (text ".yaml") || text_eq ext (text ".yml")

  unfoldable pub yaml_files : List Text → List Text
  unfolding is_yaml_file
  yaml_files [] = []
  yaml_files (p ∷ ps) = let rest = yaml_files ps in if is_yaml_file p then p ∷ rest else rest

  -- The loop over the inputs.
  unfoldable pub collect_each : List Text → Result Error (List Text)
  unfolding is_yaml_file yaml_files
  collect_each [] = ok []
  collect_each (input ∷ inputs) = do
    info ← or_outside (sys.list_below input)
    files ← elim info [
      | none ↦ (refuse_if (not (is_yaml_file input)) unsupported_type >> ok (input ∷ []))
      | some paths ↦
          (refuse_if (is_empty (yaml_files paths)) no_yaml_files >> ok (yaml_files paths))
    ]
    rest ← collect_each inputs
    ok (files ++ rest)

  unfoldable pub collect_yaml_files : List Text → Result Error (List Text)
  unfolding collect_each sort_texts
  collect_yaml_files inputs = do files ← collect_each inputs; ok (sort_texts files)

  -- The loop that loads and validates each file.
  unfoldable pub load_each : List Text → Result Error (List InputFile)
  unfolding validate_spec sanitize_file_name trim_suffix
  load_each [] = ok []
  load_each (path ∷ paths) = do
    spec ← or_outside (sys.load_spec path)
    or_invalid (validate_spec spec)
    let biz_name = trim_suffix (sys.base path) (sys.ext path)
    rest ← load_each paths
    ok (
        record {
          path = path;
          biz_name = biz_name;
          file_name = sanitize_file_name sys.lower biz_name;
          spec = spec;
        }
        ∷ rest)

  -- `Generate` up to the writing.
  unfoldable pub prepare : Config → Result Error (List InputFile)
  unfolding validate_config collect_yaml_files load_each validate_input_files
  prepare cfg = do
    or_invalid (validate_config cfg)
    paths ← collect_yaml_files cfg.inputs
    files ← load_each paths
    or_invalid (validate_input_files files)
    ok files

  unfoldable pub write_definitions : File → List Definition → Text
  unfolding write_definition write_functions
  write_definitions spec [] = []
  write_definitions spec (d ∷ ds) =
      write_definition sys.quote spec.app_code spec.biz_code d
      ++ write_functions d
      ++ write_definitions spec ds

  unfoldable pub build_go_code : Text → File → Config → Result Error Text
  unfolding write_definitions
  build_go_code biz_name spec cfg = or_outside (
      sys.format_source (
        text "// Code generated by errorxgen. DO NOT EDIT.\n// biz: "
        ++ biz_name
        ++ text "\n\npackage "
        ++ cfg.package_name
        ++ text "\n\nimport (\n\t\""
        ++ cfg.errorx_import
        ++ text "\"\n)\n\n"
        ++ write_definitions spec spec.error_code))

  unfoldable pub generate_go_code : InputFile → Config → W → Result Error Text × W
  unfolding build_go_code
  generate_go_code f cfg w = elim (build_go_code f.biz_name f.spec cfg) [
    | err e ↦ (err e, w)
    | ok source ↦
        let path = sys.join cfg.output_dir (f.file_name ++ text ".go") in
        let (e, w') = sys.write_file path source w in
        (elim e [ none ↦ ok path | some x ↦ err (outside x) ], w')
  ]

  unfoldable pub write_each : List InputFile → Config → W → Result Error (List Text) × W
  unfolding generate_go_code
  write_each [] cfg w = (ok [], w)
  write_each (f ∷ fs) cfg w =
      let (r, w') = generate_go_code f cfg w in
      elim r [
        | err e ↦ (err e, w')
        | ok path ↦
            let (rs, w'') = write_each fs cfg w' in
            (elim rs [ err e ↦ err e | ok paths ↦ ok (path ∷ paths) ], w'')
      ]

  unfoldable pub generate_markdown : List InputFile → Text → W → Result Error Text × W
  unfolding markdown
  generate_markdown fs path w =
      let (e, w') = sys.write_file path (markdown sys.base sys.equal_fold sys.lower fs) w in
      (elim e [ none ↦ ok path | some x ↦ err (outside x) ], w')

  -- `Generate` from the writing on.
  unfoldable pub write_all : List InputFile → Config → W → Result Error (List Text) × W
  unfolding write_each generate_markdown trim_space
  write_all fs cfg w =
      let (r, w') = write_each fs cfg w in
      elim r [
        | err e ↦ (err e, w')
        | ok paths ↦
            if is_empty (trim_space cfg.doc_output)
            then (ok paths, w')
            else let (d, w'') = generate_markdown fs cfg.doc_output w' in
              (elim d [ err e ↦ err e | ok path ↦ ok (paths ++ path ∷ []) ], w'')
      ]

  unfoldable pub generate : Config → W → Result Error (List Text) × W
  unfolding with_defaults prepare write_all
  generate cfg w =
      let full = with_defaults cfg in
      elim (prepare full) [ err e ↦ (err e, w) | ok fs ↦ write_all fs full w ]
