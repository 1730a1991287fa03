-- ===== src/Config/Files.antt =====
-- config/config_helper.go: the search for configuration files. A directory is a tree, and the
-- functions of path/filepath, the environment and the `.env` loader are arguments.
pub mod Listing
pub mod Services
pub mod Suffixes
mod Tests
use finokit.Base.{
  ℕ, List, [], ◌∷◌, ◌++◌, Option, none, some, Bool, true, false, not, ◌&&◌, ◌||◌, Text, text,
  text_eq, ltb_text, is_empty, trim_space, to_lower, has_prefix, has_suffix, trim_prefix,
  trim_suffix, index, Result, ok, err, ◌>>=◌, ◌>>◌, refuse_if, if◌then◌else◌, map,
}

-- The entries of a directory: files and directories with their names, in the order in which the system
-- lists them. A directory that cannot be read has none.
pub data Tree : Type 0 where
  nil : Tree
  file : Text → Tree → Tree
  dir : Text → Tree → Tree → Tree

pub data Error : Type 0 where
  no_sources : Text → Error
  bad_service_name : Error
  system : Text → Error

-- What the code uses of path/filepath and unicode.
pub record Paths : Type 0 where
  pub join : Text → Text → Text
  pub ext : Text → Text
  pub base : Text → Text
  pub is_abs : Text → Bool
  pub lower : ℕ → ℕ

-- `files[i].Name() < files[j].Name()`: an entry in its place in a sorted listing.
unfoldable pub insert_file : Text → Tree → Tree
unfolding ltb_text
insert_file n nil = file n nil
insert_file n (file m t) =
    let later = insert_file n t in if ltb_text m n then file m later else file n (file m t)
insert_file n (dir m c t) =
    let later = insert_file n t in if ltb_text m n then dir m c later else file n (dir m c t)

unfoldable pub insert_dir : Text → Tree → Tree → Tree
unfolding ltb_text
insert_dir n c nil = dir n c nil
insert_dir n c (file m t) =
    let later = insert_dir n c t in if ltb_text m n then file m later else dir n c (file m t)
insert_dir n c (dir m d t) =
    let later = insert_dir n c t in if ltb_text m n then dir m d later else dir n c (dir m d t)

-- `sort.Slice` of the listing of a directory and of each directory below it.
unfoldable pub sort_tree : Tree → Tree
unfolding insert_file insert_dir
sort_tree nil = nil
sort_tree (file n t) = insert_file n (sort_tree t)
sort_tree (dir n c t) = insert_dir n (sort_tree c) (sort_tree t)

-- `supportedFileSuffixes`
unfoldable pub is_supported : Text → Bool
unfolding text_eq
is_supported s = text_eq s (text "json") || text_eq s (text "xml") || text_eq s (text "yaml")

module _ (p : Paths) where
  -- The two tests on a file's name.
  unfoldable pub is_wanted : Text → Text → Bool
  unfolding is_supported to_lower trim_prefix has_suffix trim_suffix
  is_wanted env name =
      is_supported (trim_prefix (to_lower p.lower (p.ext name)) (text "."))
      && (is_empty env || has_suffix (trim_suffix name (p.ext name)) env)

  -- The loop of `collectFileSources`; a source is the path of its file.
  unfoldable pub collect_entries : Text → Text → Bool → Tree → List Text
  unfolding is_wanted
  collect_entries path env recursive nil = []
  collect_entries path env recursive (file n t) =
      let rest = collect_entries path env recursive t in
      if is_wanted env n then p.join path n ∷ rest else rest
  collect_entries path env recursive (dir n c t) =
      let below = collect_entries (p.join path n) env true c in
      let rest = collect_entries path env recursive t in if recursive then below ++ rest else rest

  -- What a path leads to: a directory's listing, or none where it cannot be read.
  unfoldable pub collect_file_sources : (Text → Option Tree) → Text → Text → Bool → List Text
  unfolding collect_entries sort_tree
  collect_file_sources read_dir path env recursive = elim (read_dir path) [
    | none ↦ []
    | some files ↦ collect_entries path env recursive (sort_tree files)
  ]

  unfoldable pub new_file_sources : (Text → Option Tree) → Text → Text → List Text
  unfolding collect_file_sources
  new_file_sources read_dir path env = collect_file_sources read_dir path env true

  unfoldable pub first_file_sources : (Text → Option Tree) → List Text → Text → Bool → List Text
  unfolding collect_file_sources
  first_file_sources read_dir [] env recursive = []
  first_file_sources read_dir (d ∷ dirs) env recursive =
      let rest = first_file_sources read_dir dirs env recursive in
      let sources = collect_file_sources read_dir d env recursive in
      if is_empty sources then rest else sources

  unfoldable pub config_roots : Text → List Text
  unfolding index has_suffix
  config_roots work_dir =
      let roots : List Text =
        p.join work_dir (text "conf")
        ∷ p.join work_dir (text "config")
        ∷ p.join work_dir (text "configs")
        ∷ [] in
      let in_cmd : Bool = elim (index work_dir (text "/cmd/")) [
        | none ↦ has_suffix work_dir (text "/cmd")
        | some _ ↦ true
      ] in
      if in_cmd
      then roots
        ++ (p.join (p.join work_dir (text "..")) (text "configs")
            ∷ p.join (p.join (p.join work_dir (text "..")) (text "..")) (text "configs")
            ∷ [])
      else roots

  -- What the process reads: the working directory, the loading of `.env` (an absent file is no error),
  -- the environment, and the directories.
  pub record Process : Type 0 where
    pub work_dir : Result Text Text
    pub load_dotenv : Option Text
    pub getenv : Text → Text
    pub read_dir : Text → Option Tree

  abbrev pub or_system {ℓ} : {A : Type ℓ} → Result Text A → Result Error A
  or_system (ok a) = ok a
  or_system (err e) = err (system e)

  abbrev pub check_dotenv : Option Text → Result Error (Unit {0})
  check_dotenv none = ok tt
  check_dotenv (some e) = err (system e)

  unfoldable pub default_sources : Process → Result Error (List Text)
  unfolding config_roots first_file_sources
  default_sources s = do
    work_dir ← or_system s.work_dir
    check_dotenv s.load_dotenv
    let config_path = s.getenv (text "CONFIG_PATH")
    let roots = config_roots work_dir
    let dirs = if is_empty config_path then roots else config_path ∷ roots
    ok (first_file_sources s.read_dir dirs (s.getenv (text "DEPLOY_ENV")) true)

  -- `LoadDefaultSources`, with the sources that it loads.
  unfoldable pub load_default_sources : Process → Result Error (List Text)
  unfolding default_sources
  load_default_sources s = default_sources s

  unfoldable pub is_bad_service : Text → Bool
  unfolding text_eq
  is_bad_service service =
      is_empty service
      || text_eq service (text ".")
      || text_eq service (text "..")
      || p.is_abs service
      || not (text_eq (p.base service) service)

  unfoldable pub service_sources : Process → Text → Result Error (List Text)
  service_sources s name = do
    let service = trim_space name
    refuse_if (is_bad_service service) bad_service_name
    work_dir ← or_system s.work_dir
    check_dotenv s.load_dotenv
    let env = s.getenv (text "DEPLOY_ENV")
    let roots = config_roots work_dir
    let config_path = s.getenv (text "CONFIG_PATH")
    let direct_dirs = if is_empty config_path then roots else config_path ∷ roots
    let service_dirs = map (λ root. p.join root service) direct_dirs
    let sources = first_file_sources s.read_dir service_dirs env true
    let direct = first_file_sources s.read_dir direct_dirs env false
    ok (if is_empty sources then direct else sources)

  -- `LoadServiceConfig` up to the loading: a service without sources is an error.
  unfoldable pub load_service_config : Process → Text → Result Error (List Text)
  unfolding service_sources
  load_service_config s service = do
    sources ← service_sources s service
    refuse_if (is_empty sources) (no_sources service)
    ok sources
