-- ===== src/Config/Source/Options/Tests.antt =====
-- Some options of a file source, where encoders and file systems are numbers.
use finokit.Base.{ℕ, List, [], ◌∷◌, text, ◌≡◌, refl}
use finokit.Config.Source.Options.{
  Setting, with_encoder, with_key, with_path, with_prefix, new_options, env_prefixes,
  bucket_and_key,
}

abbrev some_settings : List (Setting ℕ ℕ)
some_settings =
    with_path (text "a.json")
    ∷ with_prefix (text "APP" ∷ text "DB_" ∷ [])
    ∷ with_encoder 7
    ∷ with_key (text "k")
    ∷ with_path (text "b.yaml")
    ∷ []

prefixes_read : env_prefixes [] (new_options 3 some_settings) ≡ ([], text "APP_" ∷ text "DB_" ∷ [])
unfolding new_options env_prefixes
prefixes_read = refl

default_bucket : bucket_and_key (new_options 3 some_settings) ≡ (text "default", text "k")
unfolding new_options bucket_and_key
default_bucket = refl
