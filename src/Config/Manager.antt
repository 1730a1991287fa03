-- ===== src/Config/Manager.antt =====
-- config/config.go: the configuration that the package keeps for the application, and the reading of a
-- section of it. A configuration is an interface, `Manages`; a target that is scanned into is a value.
pub mod Sections
pub mod Watching
mod Tests
use finokit.Base.{
  ℕ, List, [], ◌∷◌, ◌++◌, Option, none, some, Bool, true, false, Text, split, Result, ok, err,
  ◌>>=◌, map_err, if◌then◌else◌,
}
use finokit.Config.Files.{Tree, Paths, new_file_sources}

pub data Error : Type 0 where
  uninitialized nil_target : Error
  scan_failed : Text → Text → Error
  outside : Text → Error

-- What the package calls on a configuration C, with sources S, options O, values V and targets T.
pub record Manages (C S O V T : Type 0) : Type 0 where
  pub new_config : List O → Result Text C
  pub close : C → C
  pub bytes : C → Text
  pub scan : C → T → Result Text T
  pub sync : C → Option Text × C
  pub get : List Text → C → Result Text V
  pub load : List S → C → Option Text × C
  pub is_null : V → Bool
  pub scan_value : V → T → Result Text T

pub record Manager (C : Type 0) : Type 0 where
  pub default_config : Option C
  pub inited : Bool
  -- the configurations that were replaced, each closed
  pub replaced : List C

-- `normalizePath`
unfoldable pub normalize_path : List Text → List Text
unfolding split
normalize_path [] = []
normalize_path (p ∷ ps) = split p b'.' ++ normalize_path ps

module _ {C S O V T : Type 0} (ops : Manages C S O V T) where
  unfoldable pub init_default : List O → Manager C → Option Error × Manager C
  init_default opts m = elim (ops.new_config opts) [
    | err e ↦ (some (outside e), m)
    | ok c ↦ (
      none,
      record {
        default_config = some c;
        inited = true;
        replaced =
            m.replaced ++ elim m.default_config [ none ↦ [] | some old ↦ ops.close old ∷ [] ];
      },
    )
  ]

  unfoldable pub is_default_initialized : Manager C → Bool
  is_default_initialized m = m.inited

  -- The configuration that a helper works on. The package makes one when it starts, so there is one;
  -- calling its method on nil would fail.
  unfoldable pub default_of : Manager C → Result Error C
  default_of m =
      if m.inited
      then elim m.default_config [ none ↦ err (outside []) | some c ↦ ok c ]
      else err uninitialized

  abbrev pub or_outside {ℓ} : {A : Type ℓ} → Result Text A → Result Error A
  or_outside r = map_err outside r

  unfoldable pub bytes : Manager C → Text
  unfolding default_of
  bytes m = elim (default_of m) [ err e ↦ [] | ok c ↦ ops.bytes c ]

  unfoldable pub scan : T → Manager C → Result Error T
  unfolding default_of
  scan v m = do c ← default_of m; or_outside (ops.scan c v)

  unfoldable pub get : List Text → Manager C → Result Error V
  unfolding default_of normalize_path
  get path m = do c ← default_of m; or_outside (ops.get (normalize_path path) c)

  unfoldable pub sync : Manager C → Option Error × Manager C
  unfolding default_of
  sync m = elim (default_of m) [
    | err e ↦ (some e, m)
    | ok c ↦
        let (e, c') = ops.sync c in
        (elim e [ none ↦ none | some x ↦ some (outside x) ], record m { default_config = some c' })
  ]

  -- `Load` marks the configuration as initialized before it loads.
  unfoldable pub load : List S → Manager C → Option Error × Manager C
  load sources m = elim m.default_config [
    | none ↦ (some (outside []), record m { inited = true })
    | some c ↦
        let (e, c') = ops.load sources c in
        (
          elim e [ none ↦ none | some x ↦ some (outside x) ],
          record m { default_config = some c'; inited = true },
        )
  ]

  -- `LoadFile`, `LoadPath` and `LoadPathWithSuffix`, with the source of a file's path.
  unfoldable pub load_file : (Text → S) → Text → Manager C → Option Error × Manager C
  unfolding load
  load_file source path m = load (source path ∷ []) m

  abbrev pub sources_of : (Text → S) → List Text → List S
  sources_of source [] = []
  sources_of source (p ∷ ps) = source p ∷ sources_of source ps

  unfoldable pub load_path_with_suffix :
      Paths → (Text → Option Tree) → (Text → S) → Text → Text → Manager C → Option Error × Manager C
  unfolding load new_file_sources
  load_path_with_suffix p read_dir source path suffix m =
      load (sources_of source (new_file_sources p read_dir path suffix)) m

  unfoldable pub load_path :
      Paths → (Text → Option Tree) → (Text → S) → Text → Manager C → Option Error × Manager C
  unfolding load_path_with_suffix
  load_path p read_dir source path m = load_path_with_suffix p read_dir source path [] m

  -- The loop of `ScanFrom`: a null value is passed over unless its key is the last.
  unfoldable pub scan_keys : Manager C → T → Text → List Text → Result Error T
  unfolding get
  scan_keys m v k [] = do val ← get (k ∷ []) m; map_err (scan_failed k) (ops.scan_value val v)
  scan_keys m v k (k' ∷ ks) =
      let rest = scan_keys m v k' ks in
      elim (get (k ∷ []) m) [
        | err e ↦ err e
        | ok val ↦ if ops.is_null val then rest else map_err (scan_failed k) (ops.scan_value val v)
      ]

  -- `ScanFrom`; the target is none where it is nil or no pointer.
  unfoldable pub scan_from : Option T → Text → List Text → Manager C → Result Error T
  unfolding scan_keys
  scan_from v key alternatives m =
      if m.inited
      then elim v [ none ↦ err nil_target | some target ↦ scan_keys m target key alternatives ]
      else err uninitialized
