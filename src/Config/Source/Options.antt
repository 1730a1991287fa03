-- ===== src/Config/Source/Options.antt =====
-- config/source/options.go and the options of the sources, which are values in a context, each under a key
-- of its own; and what `NewSource` of a source reads of them. Encoders and file systems are types.
pub mod Kept
mod Tests
use finokit.Base.{
  List, [], ◌∷◌, ◌++◌, Option, none, some, Bool, true, false, ◌||◌, not, Text, text, is_empty,
  has_suffix, if◌then◌else◌, pos,
}
use finokit.Config.Source.{ChangeSet}

-- The values of a context under the sources' keys.
pub record Context (F : Type 0) : Type 0 where
  pub url : Option (List Text)
  pub bucket : Option Text
  pub key : Option Text
  pub change_set : Option ChangeSet
  pub file_path : Option Text
  pub file_system : Option F
  pub stripped_prefix : Option (List Text)
  pub prefix : Option (List Text)
  pub include_unset : Option Bool

abbrev pub background : {F : Type 0} → Context F
background = record {
  url = none;
  bucket = none;
  key = none;
  change_set = none;
  file_path = none;
  file_system = none;
  stripped_prefix = none;
  prefix = none;
  include_unset = none;
}

-- A context of none is nil.
pub record Options (E F : Type 0) : Type 0 where
  pub encoder : E
  pub context : Option (Context F)

unfoldable pub append_underscore : List Text → List Text
unfolding has_suffix
append_underscore [] = []
append_underscore (p ∷ ps) =
    let rest = append_underscore ps in
    if not (has_suffix p (text "_")) then (p ++ text "_") ∷ rest else p ∷ rest

-- The functions that give an option; a change set is not nil.
pub data Setting (E F : Type 0) : Type 0 where
  with_encoder : E → Setting E F
  with_url : List Text → Setting E F
  with_bucket with_key : Text → Setting E F
  with_change_set : ChangeSet → Setting E F
  with_json with_yaml : Text → Setting E F
  with_path : Text → Setting E F
  with_fs : F → Setting E F
  with_stripped_prefix with_prefix : List Text → Setting E F
  include_unset : Bool → Setting E F

-- `withData`; the source and the time of the change set are not set.
abbrev pub of_data : Text → Text → ChangeSet
of_data d format = record {
  content = d;
  checksum = [];
  format = format;
  source = [];
  timestamp = pos 0;
}

module _ {E F : Type 0} where
  abbrev pub context_of : Options E F → Context F
  context_of o = elim o.context [ none ↦ background | some ctx ↦ ctx ]

  -- What an option does to the options.
  unfoldable pub apply : Setting E F → Options E F → Options E F
  unfolding append_underscore
  apply (with_encoder e) o = record o { encoder = e }
  apply (with_url a) o = record o { context = some (record (context_of o) { url = some a }) }
  apply (with_bucket a) o = record o { context = some (record (context_of o) { bucket = some a }) }
  apply (with_key a) o = record o { context = some (record (context_of o) { key = some a }) }
  apply (with_change_set cs) o = record o {
    context = some (record (context_of o) { change_set = some cs });
  }
  apply (with_json d) o = record o {
    context = some (record (context_of o) { change_set = some (of_data d (text "json")) });
  }
  apply (with_yaml d) o = record o {
    context = some (record (context_of o) { change_set = some (of_data d (text "yaml")) });
  }
  apply (with_path p) o = record o { context = some (record (context_of o) { file_path = some p }) }
  apply (with_fs f) o = record o { context = some (record (context_of o) { file_system = some f }) }
  apply (with_stripped_prefix p) o = record o {
    context = some (record (context_of o) { stripped_prefix = some (append_underscore p) });
  }
  apply (with_prefix p) o = record o {
    context = some (record (context_of o) { prefix = some (append_underscore p) });
  }
  apply (include_unset b) o = record o {
    context = some (record (context_of o) { include_unset = some b });
  }

  unfoldable pub apply_all : List (Setting E F) → Options E F → Options E F
  unfolding apply
  apply_all [] o = o
  apply_all (s ∷ ss) o = apply_all ss (apply s o)

  -- `NewOptions`, with the JSON encoder.
  unfoldable pub new_options : E → List (Setting E F) → Options E F
  unfolding apply_all
  new_options json ss = apply_all ss (record { encoder = json; context = some background })

  -- The start of `NewSource` of config/source/env/env.go: the stripped prefixes and the prefixes.
  unfoldable pub env_prefixes : List Text → Options E F → List Text × List Text
  env_prefixes default_prefixes o =
      let ctx = context_of o in
      let sp : List Text = elim ctx.stripped_prefix [ none ↦ [] | some p ↦ p ] in
      let pre : List Text = elim ctx.prefix [ none ↦ [] | some p ↦ p ] in
      (sp, if not (is_empty sp) || not (is_empty pre) then pre ++ default_prefixes else pre)

  -- The bucket and the key that `NewSource` of config/source/nats/nats.go takes.
  unfoldable pub bucket_and_key : Options E F → Text × Text
  bucket_and_key o =
      let ctx = context_of o in
      (
        elim ctx.bucket [ none ↦ text "default" | some b ↦ b ],
        elim ctx.key [ none ↦ text "micro_config" | some k ↦ k ],
      )
