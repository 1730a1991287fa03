-- ===== src/Errorx/Options.antt =====
-- errorx/option.go. An `Option` is a function on the error; each one leaves a nil error alone, and
-- `applyOptions` is only called with an error, so the functions below take one.
use finokit.Base.{
  List, [], ◌∷◌, ◌++◌, Option, none, some, if◌then◌else◌, Text, text, is_empty, replace_all,
  insert_all, text_key,
}
use finokit.Errorx.Chain.{Error}

abbrev pub Setting : Type 0
Setting = Error → Error

-- The error with another message.
abbrev set_message : Error → Text → Error
set_message e m = record e { body = record (e.body) { message = m } }

-- A nil map of an error is made before the entries are written.
abbrev pub merged : Option (List (Text × Text)) → List (Text × Text) → List (Text × Text)
merged none new = insert_all new []
merged (some old) new = insert_all new old

unfoldable pub with_extra : Option (List (Text × Text)) → Setting
with_extra none e = e
with_extra (some new) e = record e {
  body = record (e.body) { extra = some (merged e.body.extra new) };
}

abbrev pub placeholder : Text → Text
placeholder key = text "{" ++ key ++ text "}"

unfoldable pub with_message_param : Text → Text → Setting
with_message_param key value e =
    if is_empty key then e else set_message e (replace_all e.body.message (placeholder key) value)

unfoldable pub with_extra_message : Text → Setting
with_extra_message message e =
    if is_empty message then e else set_message e (e.body.message ++ text "," ++ message)

unfoldable pub without_stack : Setting
without_stack e = record e { body = record (e.body) { stack = [] } }

unfoldable pub apply_options : Error → List Setting → Error
apply_options e [] = e
apply_options e (opt ∷ opts) = apply_options (opt e) opts
