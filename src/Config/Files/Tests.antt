-- ===== src/Config/Files/Tests.antt =====
-- Runs of the search for files: a service with a directory of its own below `configs`.
use finokit.Config.Source.{ChangeSet}
use finokit.Config.Reader.{decode}
use finokit.Config.Files.Suffixes.{codecs_of, read_from, capitals_are_json}
use finokit.Base.{
  ℕ, pos, Result, ◌==◌, List, [], ◌∷◌, ◌++◌, Option, none, some, Bool, true, false, Text, text,
  text_eq, is_empty, trim_space, ok, ◌≡◌, ◌≢◌, refl, if◌then◌else◌,
}
use finokit.Config.Files.{
  Tree, nil, file, dir, Paths, Process, is_bad_service, config_roots, sort_tree, collect_entries,
  collect_file_sources, load_service_config, is_wanted, service_sources, first_file_sources,
}
use finokit.Config.Files.Listing.{count, count_wanted, files_of, IsSorted, collect_file_sources_lem}
use finokit.Config.Files.Services.{ComesFrom, load_service_config_lem}

-- The suffix of a name from its last dot.
abbrev ext_from : Text → Text → Text
ext_from cur [] = cur
ext_from cur (c ∷ s) = if c == b'.' then ext_from (c ∷ s) s else ext_from cur s

abbrev paths : Paths
paths = record {
  join = λ a b. a ++ text "/" ++ b;
  ext = ext_from [];
  base = λ s. s;
  is_abs = λ s. false;
  lower = λ c. c;
}

abbrev in_service : Tree
in_service = file (text "b.yaml") (file (text "a.json") (file (text "notes.txt") nil))

abbrev in_configs : Tree
in_configs = dir (text "user") in_service (file (text "all.yaml") nil)

abbrev read : Text → Option Tree
read path =
    if text_eq path (text "/srv/configs/user")
    then some in_service
    else if text_eq path (text "/srv/configs")
    then some in_configs
    else none

abbrev process : Process paths
process = record {
  work_dir = ok (text "/srv");
  load_dotenv = none;
  getenv = λ name. [];
  read_dir = read;
}

abbrev found : List Text
found = text "/srv/configs/user/a.json" ∷ text "/srv/configs/user/b.yaml" ∷ []

finds_user : load_service_config paths process (text " user ") ≡ ok found
unfolding load_service_config service_sources first_file_sources collect_file_sources
    collect_entries sort_tree is_wanted text_eq trim_space is_bad_service config_roots
finds_user = refl

abbrev any_file : Text → Bool
any_file path = true

read_configs : read (text "/srv/configs") ≡ some in_configs
unfolding text_eq
read_configs = refl

collect_file_sources_lem_example :
    (collect_file_sources paths read (text "/srv/configs") [] true
      ≡ collect_entries paths (text "/srv/configs") [] true (sort_tree in_configs))
    × IsSorted (sort_tree in_configs)
    × (count any_file (collect_file_sources paths read (text "/srv/configs") [] true)
        ≡ count_wanted paths [] any_file (files_of paths (text "/srv/configs") true in_configs))
collect_file_sources_lem_example =
    collect_file_sources_lem paths [] any_file read (text "/srv/configs") true in_configs
      read_configs

load_service_config_lem_example :
    (is_empty found ≡ false)
    × ((is_empty (trim_space (text " user ")) ≡ false)
        × (trim_space (text " user ") ≢ text "..")
        × (paths.is_abs (trim_space (text " user ")) ≡ false)
        × (paths.base (trim_space (text " user ")) ≡ trim_space (text " user ")))
    × ((work_dir : Text) × (process.work_dir ≡ ok work_dir)
        × ComesFrom paths process (trim_space (text " user ")) work_dir found)
load_service_config_lem_example =
    load_service_config_lem paths process (text " user ") found finds_user

-- JSON is decoded to 1, XML to 2 and YAML to 3.
abbrev decodes_to : ℕ → Text → Result Text ℕ
decodes_to n t = ok n

abbrev no_change : ChangeSet
no_change = record { content = []; checksum = []; format = []; source = []; timestamp = pos 0 }

capitals_are_json_example :
    (is_wanted paths [] (text "app" ++ text ".YAML") ≡ true)
    × (decode
          (codecs_of paths
            (decodes_to 1)
            (decodes_to 2)
            (decodes_to 3)
            (λ d. ok [])
            (λ a b. ok b)
            0)
          (read_from paths
            (decodes_to 1)
            (decodes_to 2)
            (decodes_to 3)
            (text "json")
            (text "/srv/" ++ text "app" ++ text ".YAML")
            (text "a: b")
            no_change)
        ≡ ok 1)
    × (decode
          (codecs_of paths
            (decodes_to 1)
            (decodes_to 2)
            (decodes_to 3)
            (λ d. ok [])
            (λ a b. ok b)
            0)
          (read_from paths
            (decodes_to 1)
            (decodes_to 2)
            (decodes_to 3)
            (text "json")
            (text "/srv/" ++ text "app" ++ text ".yaml")
            (text "a: b")
            no_change)
        ≡ ok 3)
capitals_are_json_example =
    capitals_are_json paths (decodes_to 1) (decodes_to 2) (decodes_to 3) (text "/srv/") (text "app")
      (text "json") (text "a: b") no_change (λ d. ok []) (λ a b. ok b) 0 refl
