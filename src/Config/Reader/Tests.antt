-- ===== src/Config/Reader/Tests.antt =====
-- Replacing the variables of a text.
use finokit.Base.{Text, text, ◌≡◌, refl}
use finokit.Config.Reader.{is_word, word_before, match_var, replace_vars, replace_env_vars}
use finokit.Config.Reader.Variables.{IsName}

abbrev getenv : Text → Text
getenv name = text "cat"

abbrev bar : Text
bar = text "my"

bar-IsName : IsName bar
unfolding is_word
bar-IsName = (refl, (refl, tt))

replaces : replace_env_vars getenv (text "a ${my} $ ${} ${x-}") ≡ text "a cat $ ${} ${x-}"
unfolding replace_env_vars replace_vars match_var word_before is_word
replaces = refl
