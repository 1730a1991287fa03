-- ===== src/Config/Source/Env/Tests.antt =====
-- A variable of the environment, where every value is a text.
use finokit.Base.{ℕ, [], ◌∷◌, Option, none, Bool, Text, text, join, to_lower, ℤ, ◌≡◌, refl}

abbrev atoi : Text → Option ℤ
atoi t = none

abbrev parse_bool : Text → Option Bool
parse_bool t = none

abbrev lower : ℕ → ℕ
lower c = c

abbrev app : Text
app = text "app"

abbrev db : Text
db = text "db"

lowers_name : to_lower lower (text "APP_DB") ≡ join (app ∷ db ∷ []) (text "_")
unfolding to_lower join
lowers_name = refl
