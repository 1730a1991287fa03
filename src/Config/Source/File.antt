-- ===== src/Config/Source/File.antt =====
-- config/source/file/: a file as a source. The file system, the environment and ParseInt are arguments.
pub mod Formats
pub mod Watching
use finokit.Base.{
  List, [], ◌∷◌, Option, none, some, Bool, true, false, Text, text, is_empty, split, ltb, length,
  Result, ok, err, ◌>>=◌, ◌>>◌, refuse_if, map_err, ℤ, pos, ltb_ℤ, leb_ℤ, if◌then◌else◌,
}
use finokit.Config.Source.{ChangeSet, summed, NoopWatcher, new_noop_watcher}

pub data Error : Type 0 where
  too_large : Error
  system : Text → Error

-- An opened file: its size and time, and what reading it gives.
pub record Opened : Type 0 where
  pub stat : Result Text (ℤ × ℤ)
  pub content : Result Text Text

abbrev pub default_max_config_size : ℤ
default_max_config_size = pos 16777216

unfoldable pub max_config_size_bytes : (Text → Option ℤ) → Text → ℤ
max_config_size_bytes parse_int raw =
    if is_empty raw then default_max_config_size else elim (parse_int raw) [
      | none ↦ default_max_config_size
      | some n ↦ if leb_ℤ n (pos 0) then default_max_config_size else n
    ]

abbrev pub last_part : Text → List Text → Text
last_part p [] = p
last_part p (q ∷ ps) = last_part q ps

-- The suffix of a path, or the encoder's name where it has none.
unfoldable pub format : Text → Text → Text
unfolding split
format p encoder = elim (split p b'.') [
  | [] ↦ encoder
  | first ∷ parts ↦ if ltb 1 (length (first ∷ parts)) then last_part first parts else encoder
]

abbrev pub or_system {ℓ} : {A : Type ℓ} → Result Text A → Result Error A
or_system r = map_err system r

unfoldable pub read :
    (Text → Text)
    → (Text → Option ℤ)
    → (Text → Text)
    → Text
    → (Text → Result Text Opened)
    → Text
    → Result Error ChangeSet
unfolding max_config_size_bytes format summed
read hash parse_int getenv encoder open_file path = do
  fh ← or_system (open_file path)
  info ← or_system fh.stat
  let max_size = max_config_size_bytes parse_int (getenv (text "fino_CONFIG_FILE_MAX_BYTES"))
  refuse_if (ltb_ℤ max_size info.0) too_large
  b ← or_system fh.content
  ok (
      summed hash (record {
        content = b;
        checksum = [];
        format = format path encoder;
        source = text "file";
        timestamp = info.1;
      }))

-- `NewSource`: the path of the context, or the default.
unfoldable pub path_of : Option Text → Text
path_of none = text "config.json"
path_of (some p) = p
