-- ===== src/Config/Files/Services.antt =====
-- Which directory the sources of a service come from.
use mathlib.Core.Path.{subst}
use finokit.Base.{
  List, [], ◌∷◌, ◌++◌, map, Option, Bool, true, false, Text, text, text_eq_iff, is_empty,
  trim_space, All, ok, ◌≡◌, ◌≢◌, refl, ap, sym, ◌∙◌, arith, ◌⊎◌, inl, inr, Bool-cases, Option-cases,
  Result-cases, >>=-eq-ok, refuse_if_iff, ok_injective, if◌then◌else◌,
}
use finokit.Config.Files.{
  Tree, Paths, Process, collect_file_sources, first_file_sources, config_roots, is_bad_service,
  service_sources, load_service_config, no_sources,
}

module _ (p : Paths) where
  -- The first directory of a list that has sources, or none has.
  abbrev pub IsFirst : (Text → Option Tree) → Text → Bool → List Text → List Text → Type 0
  IsFirst read_dir env deep dirs sources =
      ((sources ≡ []) × All (λ d. collect_file_sources p read_dir d env deep ≡ []) dirs)
      ⊎ ((before : List Text) × (d : Text) × (after : List Text) × (dirs ≡ before ++ d ∷ after)
          × All (λ b. collect_file_sources p read_dir b env deep ≡ []) before
          × (sources ≡ collect_file_sources p read_dir d env deep)
          × (is_empty sources ≡ false))

  empty_lem : {A : Type 0} (xs : List A) → is_empty xs ≡ true → xs ≡ []
  empty_lem [] h = refl
  empty_lem (x ∷ xs) h = cc

  first_file_sources-IsFirst :
      (read_dir : Text → Option Tree) (env : Text) (deep : Bool) (dirs : List Text)
      → IsFirst read_dir env deep dirs (first_file_sources p read_dir dirs env deep)
  unfolding first_file_sources
  first_file_sources-IsFirst read_dir env deep [] = inl (refl, tt)
  first_file_sources-IsFirst read_dir env deep (d ∷ dirs) =
      let here = collect_file_sources p read_dir d env deep in
      elim (Bool-cases (is_empty here)) [
        | inr found ↦ inr ([], d, dirs, refl, tt, rw found refl, rw found found)
        | inl empty ↦ elim (first_file_sources-IsFirst read_dir env deep dirs) [
          | inl (nothing, all) ↦ inl (rw empty nothing, (empty_lem here empty, all))
          | inr (before, e, after, split, skipped, from, some_found) ↦ inr (
            d ∷ before,
            e,
            after,
            ap (◌∷◌ d) split,
            (empty_lem here empty, skipped),
            rw empty from,
            rw empty some_found,
          )
        ]
      ]

  -- The directories that are searched: CONFIG_PATH where it is set, then the roots.
  abbrev pub search_dirs : Process p → Text → List Text
  search_dirs s work_dir =
      if is_empty (s.getenv (text "CONFIG_PATH"))
      then config_roots p work_dir
      else s.getenv (text "CONFIG_PATH") ∷ config_roots p work_dir

  -- Where the sources of a service come from.
  abbrev pub ComesFrom : Process p → Text → Text → List Text → Type 0
  ComesFrom s service work_dir sources =
      let env = s.getenv (text "DEPLOY_ENV") in
      let service_dirs = map (λ root. p.join root service) (search_dirs s work_dir) in
      IsFirst s.read_dir env true service_dirs sources
      ⊎ (All (λ d. collect_file_sources p s.read_dir d env true ≡ []) service_dirs
          × IsFirst s.read_dir env false (search_dirs s work_dir) sources)

  is_bad_service_lem :
      (service : Text)
      → is_bad_service p service ≡ false
      → (is_empty service ≡ false)
        × (service ≢ text "..")
        × (p.is_abs service ≡ false)
        × (p.base service ≡ service)
  unfolding is_bad_service
  is_bad_service_lem service good = (
    ground arith,
    λ up. ground (arith, text_eq_iff service (text "..")),
    ground arith,
    ground (arith, text_eq_iff (p.base service) service),
  )

  abbrev chosen : Process p → Text → Text → List Text
  chosen s service work_dir =
      let env = s.getenv (text "DEPLOY_ENV") in
      let dirs = search_dirs s work_dir in
      let sources =
        first_file_sources p s.read_dir (map (λ root. p.join root service) dirs) env true in
      if is_empty sources then first_file_sources p s.read_dir dirs env false else sources

  choose_lem :
      (s : Process p) (service work_dir : Text)
      → ComesFrom s service work_dir (chosen s service work_dir)
  choose_lem s service work_dir =
      let env = s.getenv (text "DEPLOY_ENV") in
      let dirs = search_dirs s work_dir in
      let service_dirs = map (λ root. p.join root service) dirs in
      elim (first_file_sources-IsFirst s.read_dir env true service_dirs) [
        | inl (nothing, all) ↦
            inr (all, rw nothing (first_file_sources-IsFirst s.read_dir env false dirs))
        | inr (before, d, after, split, skipped, from, found) ↦
            inl (rw found (inr (before, d, after, split, skipped, from, found)))
      ]

  service_sources-ok :
      (s : Process p) (name : Text) (sources : List Text)
      → service_sources p s name ≡ ok sources
      → (is_bad_service p (trim_space name) ≡ false)
        × ((work_dir : Text) × (s.work_dir ≡ ok work_dir)
            × (sources ≡ chosen s (trim_space name) work_dir))
  unfolding service_sources
  service_sources-ok s name sources h = elim (Bool-cases (is_bad_service p (trim_space name))) [
    | inl bad ↦ absurd (ground arith)
    | inr good ↦ elim (Result-cases s.work_dir) [
      | inr (e, none_known) ↦ absurd (ground arith)
      | inl (work_dir, known) ↦ elim (Option-cases s.load_dotenv) [
        | inr (e, broken) ↦ absurd (ground arith)
        | inl fine ↦
            let computed : service_sources p s name ≡ ok (chosen s (trim_space name) work_dir) =
              rw (good, known, fine) refl in
            (good, (work_dir, known, ok_injective (sym h ∙ computed)))
      ]
    ]
  ]

  -- When `LoadServiceConfig` finds sources for a service, there is one at least; the trimmed name is
  -- one path segment, not empty, not `..` and not absolute; and the sources are those of the first
  -- directory that has any: of the service's own directories below CONFIG_PATH and the roots, searched
  -- with what is below them, or, where those have none, of CONFIG_PATH and the roots themselves,
  -- searched without.
  pub load_service_config_lem :
      (s : Process p) (name : Text) (sources : List Text)
      → load_service_config p s name ≡ ok sources
      → (is_empty sources ≡ false)
        × ((is_empty (trim_space name) ≡ false)
            × (trim_space name ≢ text "..")
            × (p.is_abs (trim_space name) ≡ false)
            × (p.base (trim_space name) ≡ trim_space name))
        × ((work_dir : Text) × (s.work_dir ≡ ok work_dir)
            × ComesFrom s (trim_space name) work_dir sources)
  unfolding load_service_config
  load_service_config_lem s name sources h =
      let (found, read, rest) = >>=-eq-ok (service_sources p s name) _ h in
      let (some_found, same) =
        (refuse_if_iff (is_empty found) (no_sources name) (ok found) sources).0 rest in
      let (good, (work_dir, known, from)) = service_sources-ok s name found read in
      (
        ground arith,
        is_bad_service_lem (trim_space name) good,
        (
          work_dir,
          known,
          subst (ComesFrom s (trim_space name) work_dir) (sym from ∙ ok_injective same)
              (choose_lem s (trim_space name) work_dir),
        ),
      )
