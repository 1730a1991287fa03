-- ===== src/Errorx/Coded.antt =====
-- errorx/definition.go and errorx/error.go. The stack that `captureStack` reads from the runtime is
-- an argument of what makes an error.
pub mod Identity
pub mod Contents
use finokit.Base.{
  ℕ, suc, ◌+◌, List, [], ◌∷◌, ◌++◌, Option, none, some, Bool, true, false, ◌||◌, ◌&&◌, ◌==◌,
  if◌then◌else◌, ℤ, pos, ltb_ℤ, eqb_ℤ, Text, text, is_empty, trim_space, trim_end, index, take,
  drop, format_int, format_nat, insert_all, text_key,
}
use finokit.Errorx.Chain.{Definition, Body, Error, Chain, of_error, as_coded, error_text}
use finokit.Errorx.Options.{Setting, apply_options}

abbrev pub default_message : Text
default_message = text "Service Internal Error"

abbrev pub default_http_status : ℤ
default_http_status = pos 500

abbrev pub DefineOption : Type 0
DefineOption = Definition → Definition

unfoldable pub apply_define : Definition → List DefineOption → Definition
apply_define def [] = def
apply_define def (opt ∷ opts) = apply_define (opt def) opts

unfoldable pub define : ℤ → Text → List DefineOption → Definition
unfolding apply_define
define code message opts =
    apply_define
      (record { code = code; message = message; count_in_sla = true; http_status = pos 0 }) opts

unfoldable pub count_in_sla : Bool → DefineOption
count_in_sla b def = record def { count_in_sla = b }

unfoldable pub http_status : ℤ → DefineOption
http_status status def = record def { http_status = status }

-- Definition.StatusCode
unfoldable pub definition_status_code : Definition → ℤ
definition_status_code def =
    if ltb_ℤ def.http_status (pos 100) || ltb_ℤ (pos 599) def.http_status
    then default_http_status
    else def.http_status

unfoldable pub normalized : Definition → Definition
unfolding definition_status_code
normalized def = record def {
  message = if is_empty (trim_space def.message) then default_message else def.message;
  http_status = definition_status_code def;
}

unfoldable pub new_error : Text → Definition → Option Chain → Error
unfolding normalized
new_error stack def cause = record {
  body = record {
    def = normalized def;
    message = (normalized def).message;
    extra = none;
    stack = stack;
  };
  cause = cause;
}

-- Definition.New
unfoldable pub new : Text → Definition → List Setting → Chain
unfolding new_error
new stack def opts = of_error (apply_options (new_error stack def none) opts)

-- Definition.Wrap
unfoldable pub wrap : Text → Definition → Option Chain → List Setting → Option Chain
unfolding new_error
wrap stack def none opts = none
wrap stack def (some cause) opts =
    some (of_error (apply_options (new_error stack def (some cause)) opts))

unfoldable pub from : Option Chain → Option Error
from none = none
from (some err) = as_coded err

unfoldable pub code : Error → ℤ
code e = e.body.def.code

unfoldable pub code_of : Option Chain → Option ℤ
unfolding from code
code_of err = elim (from err) [ none ↦ none | some coded ↦ some (code coded) ]

-- The package function `Is`.
unfoldable pub is : Option Chain → ℤ → Bool
unfolding from code
is err c = elim (from err) [ none ↦ false | some coded ↦ eqb_ℤ (code coded) c ]

-- Definition.Is
unfoldable pub definition_is : Definition → Option Chain → Bool
unfolding is
definition_is def err = is err def.code

-- Error.Is
unfoldable pub error_is : Error → Option Chain → Bool
unfolding is
error_is e target = is target (code e)

-- What `ErrorWithoutStack` makes of a message and of the index of `stack=` in it.
unfoldable pub cut_stack : Text → Option ℕ → Text
cut_stack msg none = msg
cut_stack msg (some i) = trim_end (λ c. c == 10) (trim_space (take i msg))

unfoldable pub error_without_stack : Option Chain → Text
unfolding cut_stack
error_without_stack none = []
error_without_stack (some err) = cut_stack (error_text err) (index (error_text err) (text "stack="))

-- Error.StatusCode
unfoldable pub status_code : Option Error → ℤ
unfolding definition_status_code
status_code none = default_http_status
status_code (some e) = definition_status_code e.body.def

pub record ErrorView : Type 0 where
  pub code : Text
  pub message : Text

unfoldable pub new_error_view : Error → ErrorView
unfolding code
new_error_view e = record { code = format_int (code e); message = e.body.message }

-- `MarshalJSON` over the JSON encoder, which may fail.
unfoldable pub marshal_json : (ErrorView → Option Text) → Option Error → Option Text
unfolding new_error_view
marshal_json encode none = some (text "null")
marshal_json encode (some e) = encode (new_error_view e)

unfoldable pub cause_message : Option Chain → Text
cause_message none = []
cause_message (some cause) = error_text cause

unfoldable pub detail : Error → Text
unfolding cause_message code
detail e =
    let line = text "code=" ++ format_int (code e) ++ text " message=" ++ e.body.message in
    let cause = cause_message e.cause in
    if is_empty cause then line else line ++ text " cause=" ++ cause

-- `Format`: the flag is that of `%+v`.
unfoldable pub format : Error → ℕ → Bool → Text
unfolding detail
format e verb plus = if (verb == b'v') && plus then detail e else e.body.message

-- Error.Extra: a copy of the entries
unfoldable pub extra : Error → Option (List (Text × Text))
extra e = elim e.body.extra [ none ↦ none | some entries ↦ some (insert_all entries []) ]

-- A program counter's function, if the runtime knows it: file, line and name.
abbrev pub Frame : Type 0
Frame = Text × ℕ × Text

-- `strings.LastIndex(s, c)` for one character
unfoldable pub last_index : Text → ℕ → Option ℕ
last_index [] d = none
last_index (c ∷ s) d = elim (last_index s d) [
  | some i ↦ some (suc i)
  | none ↦ if c == d then some 0 else none
]

abbrev behind : Option ℕ → Text → Text
behind none s = s
behind (some i) s = drop (suc i) s

unfoldable pub trim_func_name : Text → Text
unfolding last_index
trim_func_name name =
    let base = behind (last_index name b'/') name in behind (index base (text ".")) base

-- At most 32 frames are asked for.
unfoldable pub capture_stack : List (Option Frame) → Text
unfolding trim_func_name
capture_stack [] = []
capture_stack (none ∷ frames) = capture_stack frames
capture_stack (some (file, line, name) ∷ frames) =
    file
    ++ text ":"
    ++ format_nat line
    ++ text " "
    ++ trim_func_name name
    ++ 10 ∷ capture_stack frames
