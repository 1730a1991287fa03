-- ===== src/Errorx/Generator.antt =====
-- errorx/generator/generator.go: the specifications of error codes, their validation, and the
-- names and the contents of the files made from them.
pub mod Codes
pub mod Specs
pub mod Accepts
pub mod Markdown
pub mod Output
pub mod Arguments
use finokit.Base.{
  ℕ, suc, ◌+◌, ◌*◌, List, [], ◌∷◌, ◌++◌, Option, none, some, Bool, true, false, ◌||◌, ◌&&◌, not,
  ◌==◌, leb, ltb, if◌then◌else◌, Result, ok, err, ◌>>=◌, ◌>>◌, refuse_if, ℤ, pos, negsuc, ltb_ℤ,
  eqb_ℤ, Text, text, is_empty, text_key, int_key, has_key, insert, to_lower, format_int, ◌+ℤ◌, ◌*ℤ◌,
  trim_space, length,
}

-- `countInSLA` and `httpStatus` as in the YAML; `count_in_sla` is none where the key is missing.
pub record Definition : Type 0 where
  pub code : ℤ
  pub name : Text
  pub message : Text
  pub description : Text
  pub count_in_sla : Option Bool
  pub http_status : ℤ

pub record File : Type 0 where
  pub app_code : ℤ
  pub biz_code : ℤ
  pub error_code : List Definition

pub record InputFile : Type 0 where
  pub path : Text
  pub biz_name : Text
  pub file_name : Text
  pub spec : File

pub data Error : Type 0 where
  app_code_range biz_code_range no_error_codes invalid_name code_range status_range : Error
  duplicate_name duplicate_code output_conflict name_across_files code_across_files : Error
  no_inputs invalid_package no_import : Error

abbrev letter_or_digit : ℕ → Bool
letter_or_digit c =
    (leb 65 c && leb c 90) || (leb 97 c && leb c 122) || (leb 48 c && leb c 57) || (c == b'_')

-- `[A-Za-z0-9_]*`
unfoldable pub is_ident_rest : Text → Bool
is_ident_rest [] = true
is_ident_rest (c ∷ s) = letter_or_digit c && is_ident_rest s

-- `^[A-Z][A-Za-z0-9_]*$`
unfoldable pub is_exported_ident : Text → Bool
unfolding is_ident_rest
is_exported_ident [] = false
is_exported_ident (c ∷ s) = leb 65 c && leb c 90 && is_ident_rest s

-- `^[A-Za-z_][A-Za-z0-9_]*$`
unfoldable pub is_package_name : Text → Bool
unfolding is_ident_rest
is_package_name [] = false
is_package_name (c ∷ s) =
    ((leb 65 c && leb c 90) || (leb 97 c && leb c 122) || (c == b'_')) && is_ident_rest s

pub record Config : Type 0 where
  pub inputs : List Text
  pub output_dir : Text
  pub doc_output : Text
  pub package_name : Text
  pub errorx_import : Text

unfoldable pub validate_config : Config → Result Error (Unit {0})
unfolding is_package_name trim_space
validate_config cfg = do
  refuse_if (is_empty cfg.inputs) no_inputs
  refuse_if (not (is_package_name cfg.package_name)) invalid_package
  refuse_if (is_empty (trim_space cfg.errorx_import)) no_import
  ok tt

abbrev or_default : Text → Text → Text
or_default s d = if is_empty (trim_space s) then d else s

-- The defaults that `Generate` puts in before it validates.
unfoldable pub with_defaults : Config → Config
unfolding trim_space
with_defaults cfg = record cfg {
  output_dir = or_default cfg.output_dir (text ".");
  package_name = or_default cfg.package_name (text "errcode");
  errorx_import = or_default cfg.errorx_import (text "github.com/fino-io/finokit/errorx");
}

-- A number outside a range of integers.
abbrev pub outside : ℤ → ℤ → ℤ → Bool
outside lo hi n = ltb_ℤ n lo || ltb_ℤ hi n

-- The loop of `validateSpec`, with the names and the codes seen.
unfoldable pub check_definitions :
    List Definition → List (Text × Unit {0}) → List (ℤ × Unit {0}) → Result Error (Unit {0})
check_definitions [] names codes = ok tt
check_definitions (d ∷ ds) names codes = do
  refuse_if (not (is_exported_ident d.name)) invalid_name
  refuse_if (outside (pos 1) (pos 9999) d.code) code_range
  refuse_if (not (eqb_ℤ d.http_status (pos 0)) && outside (pos 100) (pos 599) d.http_status)
      status_range
  refuse_if (has_key d.name names) duplicate_name
  refuse_if (has_key d.code codes) duplicate_code
  check_definitions ds (insert d.name tt names) (insert d.code tt codes)

unfoldable pub validate_spec : File → Result Error (Unit {0})
unfolding check_definitions
validate_spec spec = do
  refuse_if (outside (pos 1) (pos 9) spec.app_code) app_code_range
  refuse_if (outside (pos 1) (pos 9999) spec.biz_code) biz_code_range
  refuse_if (is_empty spec.error_code) no_error_codes
  check_definitions spec.error_code [] []

-- The arguments are small where validateSpec has passed, so `int` does not overflow.
unfoldable pub compose_error_code : ℤ → ℤ → ℤ → ℤ
unfolding ◌+ℤ◌ ◌*ℤ◌
compose_error_code app biz sub = app *ℤ pos 100000000 +ℤ biz *ℤ pos 10000 +ℤ sub

-- The maps of `validateInputFiles`.
pub record Seen : Type 0 where
  pub files : List (Text × Text)
  pub names : List (Text × Text)
  pub codes : List (ℤ × Text)

-- Its inner loop, over the definitions of one file.
unfoldable pub check_across : Text → ℤ → ℤ → List Definition → Seen → Result Error Seen
unfolding compose_error_code
check_across path app biz [] seen = ok seen
check_across path app biz (d ∷ ds) seen = do
  refuse_if (has_key d.name seen.names) name_across_files
  refuse_if (has_key (compose_error_code app biz d.code) seen.codes) code_across_files
  check_across path app biz ds (record seen {
    names = insert d.name path seen.names;
    codes = insert (compose_error_code app biz d.code) (path ++ text ":" ++ d.name) seen.codes;
  })

abbrev pub output_name : InputFile → Text
output_name f = f.file_name ++ text ".go"

unfoldable pub check_files : List InputFile → Seen → Result Error Seen
unfolding check_across
check_files [] seen = ok seen
check_files (f ∷ fs) seen = do
  refuse_if (has_key (output_name f) seen.files) output_conflict
  seen' ←
      check_across f.path f.spec.app_code f.spec.biz_code f.spec.error_code
        (record seen { files = insert (output_name f) f.path seen.files })
  check_files fs seen'

unfoldable pub validate_input_files : List InputFile → Result Error (Unit {0})
unfolding check_files
validate_input_files fs = do
  seen ← check_files fs (record { files = []; names = []; codes = [] })
  ok tt

-- `strings.NewReplacer("-", "_", ".", "_", "/", "_", " ", "_")`
unfoldable pub replace_marks : Text → Text
replace_marks [] = []
replace_marks (c ∷ s) =
    (if (c == b'-') || (c == b'.') || (c == b'/') || (c == b' ') then b'_' else c) ∷ replace_marks s

unfoldable pub finish_name : Text → Text
finish_name [] = text "error_code"
finish_name (c ∷ s) = if leb 48 c && leb c 57 then text "biz_" ++ c ∷ s else c ∷ s

-- The first argument is what `strings.ToLower` does beyond ASCII.
unfoldable pub sanitize_file_name : (ℕ → ℕ) → Text → Text
unfolding replace_marks finish_name to_lower trim_space
sanitize_file_name lower name = finish_name (replace_marks (trim_space (to_lower lower name)))

unfoldable pub count_in_sla : Definition → Bool
count_in_sla d = elim d.count_in_sla [ none ↦ true | some b ↦ b ]

-- `%t`
abbrev format_bool : Bool → Text
format_bool true = text "true"
format_bool false = text "false"

-- What `writeDefinition` appends; `quote` is the verb `%q`.
unfoldable pub write_definition : (Text → Text) → ℤ → ℤ → Definition → Text
unfolding compose_error_code count_in_sla
write_definition quote app biz d =
    (if is_empty d.description then [] else text "// " ++ d.description ++ text "\n")
    ++ text "var "
    ++ d.name
    ++ text " = errorx.Define(\n\t"
    ++ format_int (compose_error_code app biz d.code)
    ++ text ",\n\t"
    ++ quote d.message
    ++ text ",\n\terrorx.CountInSLA("
    ++ format_bool (count_in_sla d)
    ++ text "),\n"
    ++ (if eqb_ℤ d.http_status (pos 0)
        then []
        else text "\terrorx.HTTPStatus(" ++ format_int d.http_status ++ text "),\n")
    ++ text ")\n\n"

-- What `writeFunctions` appends.
unfoldable pub write_functions : Definition → Text
write_functions d =
    text "func New"
    ++ d.name
    ++ text "(opts ...errorx.Option) error {\n\treturn "
    ++ d.name
    ++ text ".New(opts...)\n}\n\nfunc Wrap"
    ++ d.name
    ++ text "(err error, opts ...errorx.Option) error {\n\treturn "
    ++ d.name
    ++ text ".Wrap(err, opts...)\n}\n\nfunc Is"
    ++ d.name
    ++ text "(err error) bool {\n\treturn "
    ++ d.name
    ++ text ".Is(err)\n}\n\n"
