-- ===== src/Config/Source/Options/Kept.antt =====
-- What the options of a source hold after any settings.
use finokit.Base.{List, [], ◌∷◌, Option, none, some, text, ◌≡◌, refl}
use finokit.Config.Source.Options.{
  Context, background, append_underscore, Setting, with_encoder, with_url, with_bucket, with_key,
  with_change_set, with_json, with_yaml, with_path, with_fs, with_stripped_prefix, with_prefix,
  include_unset, of_data, apply, apply_all, new_options,
}

-- What one setting says of the encoder, and of each key.
abbrev pub Said : Type 0 → Type 0 → Type 0
Said E F = Option E × Context F

module _ {E F : Type 0} where
  abbrev pub said : Setting E F → Said E F
  said (with_encoder e) = (some e, background)
  said (with_url a) = (none, record background { url = some a })
  said (with_bucket a) = (none, record background { bucket = some a })
  said (with_key a) = (none, record background { key = some a })
  said (with_change_set cs) = (none, record background { change_set = some cs })
  said (with_json d) = (none, record background { change_set = some (of_data d (text "json")) })
  said (with_yaml d) = (none, record background { change_set = some (of_data d (text "yaml")) })
  said (with_path p) = (none, record background { file_path = some p })
  said (with_fs f) = (none, record background { file_system = some f })
  said (with_stripped_prefix p) =
      (none, record background { stripped_prefix = some (append_underscore p) })
  said (with_prefix p) = (none, record background { prefix = some (append_underscore p) })
  said (include_unset b) = (none, record background { include_unset = some b })

  -- The last that is said of something, or what there was.
  abbrev pub last : {A : Type 0} → (Said E F → Option A) → List (Setting E F) → Option A → Option A
  last f [] before = before
  last f (s ∷ ss) before = last f ss (elim (f (said s)) [ none ↦ before | some a ↦ some a ])

  abbrev pub last_encoder : List (Setting E F) → E → E
  last_encoder [] e = e
  last_encoder (s ∷ ss) e = last_encoder ss (elim (said s).0 [ none ↦ e | some e' ↦ e' ])

  -- For each key the last that is said of it.
  abbrev pub last_of_each : List (Setting E F) → Context F → Context F
  last_of_each ss ctx = record {
    url = last (λ x. x.1.url) ss ctx.url;
    bucket = last (λ x. x.1.bucket) ss ctx.bucket;
    key = last (λ x. x.1.key) ss ctx.key;
    change_set = last (λ x. x.1.change_set) ss ctx.change_set;
    file_path = last (λ x. x.1.file_path) ss ctx.file_path;
    file_system = last (λ x. x.1.file_system) ss ctx.file_system;
    stripped_prefix = last (λ x. x.1.stripped_prefix) ss ctx.stripped_prefix;
    prefix = last (λ x. x.1.prefix) ss ctx.prefix;
    include_unset = last (λ x. x.1.include_unset) ss ctx.include_unset;
  }

  apply_all_from :
      (ss : List (Setting E F)) (e : E) (ctx : Context F)
      → apply_all ss (record { encoder = e; context = some ctx })
        ≡ record { encoder = last_encoder ss e; context = some (last_of_each ss ctx) }
  unfolding apply_all apply
  apply_all_from [] e ctx = refl
  apply_all_from (with_encoder e' ∷ ss) e ctx = apply_all_from ss e' ctx
  apply_all_from (with_url a ∷ ss) e ctx = apply_all_from ss e (record ctx { url = some a })
  apply_all_from (with_bucket a ∷ ss) e ctx = apply_all_from ss e (record ctx { bucket = some a })
  apply_all_from (with_key a ∷ ss) e ctx = apply_all_from ss e (record ctx { key = some a })
  apply_all_from (with_change_set cs ∷ ss) e ctx =
      apply_all_from ss e (record ctx { change_set = some cs })
  apply_all_from (with_json d ∷ ss) e ctx =
      apply_all_from ss e (record ctx { change_set = some (of_data d (text "json")) })
  apply_all_from (with_yaml d ∷ ss) e ctx =
      apply_all_from ss e (record ctx { change_set = some (of_data d (text "yaml")) })
  apply_all_from (with_path p ∷ ss) e ctx = apply_all_from ss e (record ctx { file_path = some p })
  apply_all_from (with_fs f ∷ ss) e ctx = apply_all_from ss e (record ctx { file_system = some f })
  apply_all_from (with_stripped_prefix p ∷ ss) e ctx =
      apply_all_from ss e (record ctx { stripped_prefix = some (append_underscore p) })
  apply_all_from (with_prefix p ∷ ss) e ctx =
      apply_all_from ss e (record ctx { prefix = some (append_underscore p) })
  apply_all_from (include_unset b ∷ ss) e ctx =
      apply_all_from ss e (record ctx { include_unset = some b })

  -- Whatever options a source is given, and in whatever order: it has for each key what the last option
  -- for this key says, and nothing where no option is for it, and the encoder of the last option that
  -- sets one, or that of JSON; options for different keys do not touch each other.
  pub new_options_lem :
      (json : E) (ss : List (Setting E F))
      → new_options json ss
        ≡ record { encoder = last_encoder ss json; context = some (last_of_each ss background) }
  unfolding new_options
  new_options_lem json ss = apply_all_from ss json background
