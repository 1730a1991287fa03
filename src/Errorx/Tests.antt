-- ===== src/Errorx/Tests.antt =====
-- Tests of the coded errors, and instances of the theorems.
use finokit.Base.{
  [], ◌∷◌, none, some, true, false, ◌≡◌, refl, arith, pos, ◌≤ℤ◌, text, text_key, insert, index,
  trim_space, text_eq, ◌↔◌, Distinct, map, ok, err, has_key, int_key,
}
use finokit.Errorx.Chain.{
  Definition, Error, Chain, plain, wrapped, joined, nil, cons, error_text, of_error, as_coded,
}
use finokit.Errorx.Options.{with_message_param, without_stack, apply_options}
use finokit.Errorx.Coded.{
  new, wrap, from, code_of, definition_is, status_code, error_without_stack, new_error,
  trim_func_name,
}
use finokit.Errorx.Generator as G
use finokit.Errorx.Generator.{
  validate_spec, validate_input_files, compose_error_code, sanitize_file_name, is_exported_ident,
}
use finokit.Errorx.Generator.Codes.{compose_error_code_injective}
use finokit.Errorx.Generator.Accepts.{all_names, all_codes, validate_input_files_iff}
use finokit.Errorx.Coded.Identity.{
  in_context, definition_is_lem, with_message_param-KeepsOrigin, without_stack-KeepsOrigin,
}

abbrev missing : Definition
missing = record {
  code = pos 100010001;
  message = text "user {id} not found";
  count_in_sla = true;
  http_status = pos 404;
}

abbrev busy : Definition
busy = record { code = pos 100010002; message = []; count_in_sla = false; http_status = pos 42 }

abbrev cause : Chain
cause = new (text "main.go:1") busy []

joined_finds_first :
    code_of (some (joined (cons (plain (text "x")) (cons (wrapped (text "y") cause) nil))))
    ≡ some (pos 100010002)
unfolding code_of new of_error as_coded apply_options
joined_finds_first = refl

busy_default : status_code (from (some cause)) ≡ pos 500
unfolding status_code new from of_error as_coded apply_options
busy_default = refl

short_name : trim_func_name (text "github.com/a/b.(*T).Run") ≡ text "(*T).Run"
unfolding trim_func_name index
short_name = refl

definition_is_lem_example :
    (definition_is missing (
        some (
          in_context
            (text "load" ∷ [])
            (new [] missing (with_message_param (text "id") (text "7") ∷ without_stack ∷ []))))
      ≡ true)
    × ((err : Chain) × (wrap [] missing
            (some cause)
            (with_message_param (text "id") (text "7") ∷ without_stack ∷ [])
          ≡ some err)
        × (definition_is missing (some (in_context (text "load" ∷ []) err)) ≡ true))
definition_is_lem_example =
    definition_is_lem [] missing missing cause
      (with_message_param (text "id") (text "7") ∷ without_stack ∷ []) (text "load" ∷ [])
      (with_message_param-KeepsOrigin (text "id") (text "7"), (without_stack-KeepsOrigin, tt))

abbrev not_found : Error
not_found = new_error [] missing none

boom : error_without_stack (some (plain (text "boom stack=main.go:1"))) ≡ text "boom"
unfolding error_without_stack error_text index trim_space
boom = refl

abbrev gone : G.Definition
gone = record {
  code = pos 1;
  name = text "NotFound";
  message = [];
  description = [];
  count_in_sla = none;
  http_status = pos 404;
}

abbrev gone_again : G.Definition
gone_again = record gone { code = pos 2 }

abbrev users_spec : G.File
users_spec = record { app_code = pos 1; biz_code = pos 20; error_code = gone ∷ [] }

abbrev users_file : G.InputFile
users_file = record {
  path = text "users.yaml";
  biz_name = text "users";
  file_name = text "users";
  spec = users_spec;
}

duplicate_refused :
    validate_spec (record users_spec { error_code = gone ∷ gone_again ∷ [] })
    ≡ err G.Error.duplicate_name
unfolding validate_spec is_exported_ident has_key insert text_eq
duplicate_refused = refl

code_of_gone : compose_error_code (pos 1) (pos 20) (pos 1) ≡ pos 100200001
unfolding compose_error_code
code_of_gone = refl

digit_name : sanitize_file_name (λ c. c) (text " 2FA/Auth-x ") ≡ text "biz_2fa_auth_x"
unfolding sanitize_file_name
digit_name = refl

validate_input_files_iff_example : (validate_input_files (users_file ∷ users_file ∷ []) ≡ ok tt) ↔ (
    Distinct (all_names (users_file ∷ users_file ∷ []))
    × Distinct (all_codes (users_file ∷ users_file ∷ []))
    × Distinct (map G.output_name (users_file ∷ users_file ∷ [])))
validate_input_files_iff_example = validate_input_files_iff (users_file ∷ users_file ∷ [])

compose_error_code_injective_example :
    (pos 100000000 ≤ℤ compose_error_code (pos 1) (pos 20) (pos 1))
    × (compose_error_code (pos 1) (pos 20) (pos 1) ≤ℤ pos 999999999)
    × ((compose_error_code (pos 1) (pos 20) (pos 1) ≡ compose_error_code (pos 9) (pos 2) (pos 1))
        ↔ ((pos 1 ≡ pos 9) × (pos 20 ≡ pos 2) × (pos 1 ≡ pos 1)))
compose_error_code_injective_example =
    compose_error_code_injective (pos 1) (pos 20) (pos 1) (pos 9) (pos 2) (pos 1) (omega arith)
      (omega arith)
