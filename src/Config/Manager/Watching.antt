-- ===== src/Config/Manager/Watching.antt =====
-- `Map`, `Watch` and `LoadFlag` of config/config.go, `WatchFunc` of config/config_helper.go with its
-- goroutine as the list of what `Next` returns, and the provider of config/provider.go.
use finokit.Base.{
  ℕ, List, [], ◌∷◌, ◌++◌, Option, none, Bool, true, false, Text, split, Result, ok, err, ◌>>=◌,
  map_err, ◌≡◌, ◌≢◌, refl, ap, All, if◌then◌else◌,
}
use finokit.Config.Manager.{
  Error, outside, Manages, Manager, normalize_path, default_of, load, get, scan, scan_from,
}

-- What `Next` of a watcher returns: a value, that the watcher was stopped, or another error.
pub data Came (V : Type 0) : Type 0 where
  value : V → Came V
  stopped failed : Came V

module _ {C S O V T : Type 0} (ops : Manages C S O V T) where
  -- A map of none is nil.
  unfoldable pub map_of : {M : Type 0} → (C → Option M) → Manager C → Option M
  unfolding default_of
  map_of map_ m = elim (default_of ops m) [ err e ↦ none | ok c ↦ map_ c ]

  unfoldable pub watch :
      {W : Type 0} → (List Text → C → Result Text W) → List Text → Manager C → Result Error W
  unfolding default_of normalize_path
  watch watch_at path m = do
    c ← default_of ops m
    map_err outside (watch_at (normalize_path path) c)

  unfoldable pub load_flag : S → Manager C → Option Error × Manager C
  unfolding load
  load_flag flag_source m = load ops (flag_source ∷ []) m

-- The paths of `WatchFunc`, split at their dots.
unfoldable pub split_paths : List Text → List Text
unfolding split
split_paths [] = []
split_paths (v ∷ paths) = split v b'.' ++ split_paths paths

-- The goroutine of `WatchFunc`: the values that `handle` gets, and whether it has ended.
unfoldable pub handle_loop : {V : Type 0} → List (Came V) → List V × Bool
handle_loop [] = ([], false)
handle_loop (value v ∷ came) = let (later, ended) = handle_loop came in (v ∷ later, ended)
handle_loop (stopped ∷ came) = ([], true)
handle_loop (failed ∷ came) = handle_loop came

-- The closer: whether it was closed, and how often its channel was.
pub record WatchCloser : Type 0 where
  pub closed : Bool
  pub closes : ℕ

unfoldable pub close : WatchCloser → WatchCloser
close w = if w.closed then w else record { closed = true; closes = 1 }

-- `IConfigProvider`, and the one that `NewDefaultConfigProvider` makes.
pub record Provider (C V T : Type 0) : Type 0 where
  pub get_at : Text → Manager C → Result Error V
  pub scan_into : T → Manager C → Result Error T
  pub scan_section : Option T → Text → List Text → Manager C → Result Error T

unfoldable pub new_default_config_provider :
    {C S O V T : Type 0} → Manages C S O V T → Provider C V T
unfolding get scan scan_from
new_default_config_provider ops = record {
  get_at = λ key m. get ops (key ∷ []) m;
  scan_into = λ v m. scan ops v m;
  scan_section = λ v key alternatives m. scan_from ops v key alternatives m;
}

-- The values among what came.
abbrev pub values_of : {V : Type 0} → List (Came V) → List V
values_of [] = []
values_of (value v ∷ came) = v ∷ values_of came
values_of (stopped ∷ came) = values_of came
values_of (failed ∷ came) = values_of came

abbrev pub GoesOn : {V : Type 0} → Came V → Type 0
GoesOn c = c ≢ stopped

-- As long as the watcher is not stopped, `handle` gets every value that comes, once and in order, and the
-- goroutine goes on, also after other errors; when it finds the watcher stopped it ends, and `handle` gets
-- nothing that would come later.
pub handle_loop_lem :
    {V : Type 0} (came later : List (Came V))
    → All GoesOn came
    → (handle_loop came ≡ (values_of came, false))
      × (handle_loop (came ++ stopped ∷ later) ≡ (values_of came, true))
unfolding handle_loop
handle_loop_lem [] later goes = (refl, refl)
handle_loop_lem (value v ∷ came) later (here, goes) =
    let (runs, ends) = handle_loop_lem came later goes in
    (ap (λ p. (v ∷ p.0, p.1)) runs, ap (λ p. (v ∷ p.0, p.1)) ends)
handle_loop_lem (stopped ∷ came) later (here, goes) = absurd (here refl)
handle_loop_lem (failed ∷ came) later (here, goes) = handle_loop_lem came later goes
