-- ===== src/Config/Default/Running.antt =====
-- The goroutine `run` of config/default.go as the sequence of its rounds: each watches the loader, takes
-- what the loader's watcher returns up to its error, and looks whether `exit` is closed. What other
-- goroutines do to the configuration in between is a function. The sleeps are left out, and so is the
-- goroutine that stops the watcher at the end of a round.
use finokit.Base.{
  ℕ, ◌<◌, ◌^◌, pos, List, [], ◌∷◌, ◌++◌, Option, none, some, Bool, true, false, ◌≡◌, refl, All,
  if◌then◌else◌,
}
use finokit.Config.Loader.Watchers.{Reader}
use finokit.Config.Loader.Memory.{Snapshot, gen_ver}
use finokit.Config.Default.{Config, watched}

module _ (r : Reader) (Source : Type 0) where
  -- What the loader's watcher returned, and what others do before that is taken; a snapshot of none is
  -- nil, or has no change set.
  pub record Arrival : Type 0 where
    pub others : Config r Source → Config r Source
    pub snapshot : Option (Snapshot r Source)

  -- What came before the watcher's error, if the loader could be watched; what others do then; and
  -- whether the round found the configuration closed.
  pub record Round : Type 0 where
    pub came : Option (List Arrival)
    pub others : Config r Source → Config r Source
    pub closed : Bool

  -- The loop of the function `watch`.
  unfoldable pub watch_loop : List Arrival → Config r Source → Config r Source
  unfolding watched
  watch_loop [] c = c
  watch_loop (a ∷ came) c = elim a.snapshot [
    | none ↦ watch_loop came (a.others c)
    | some snap ↦ watch_loop came (watched r Source snap (a.others c))
  ]

  -- The rounds that were had, and whether the goroutine has ended; a round in which the loader could not
  -- be watched does not look at `exit`.
  unfoldable pub run : List Round → Config r Source → Config r Source × Bool
  unfolding watch_loop
  run [] c = (c, false)
  run (round ∷ rounds) c = elim round.came [
    | none ↦ run rounds (round.others c)
    | some came ↦
        let done = round.others (watch_loop came c) in
        let later = run rounds done in if round.closed then (done, true) else later
  ]

  abbrev pub listed : Option (Snapshot r Source) → List (Snapshot r Source)
  listed none = []
  listed (some snap) = snap ∷ []

  abbrev pub present : List Arrival → List (Snapshot r Source)
  present [] = []
  present (a ∷ came) = listed a.snapshot ++ present came

  abbrev pub came_in : Option (List Arrival) → List Arrival
  came_in none = []
  came_in (some came) = came

  -- The snapshots of some rounds, in order.
  abbrev pub heard : List Round → List (Snapshot r Source)
  heard [] = []
  heard (round ∷ rounds) = present (came_in round.came) ++ heard rounds

  abbrev pub IsOpen : Round → Type 0
  IsOpen round = round.closed ≡ false

  -- The version is that of a time.
  abbrev pub IsStamped : Snapshot r Source → Type 0
  IsStamped s = (b : ℕ) × (s.version ≡ gen_ver (pos b)) × (b < 2 ^ 63)

  abbrev pub IsUnwatched : Round → Type 0
  IsUnwatched round = round.came ≡ none

  -- As long as the loader cannot be watched the goroutine does not end, whether the configuration is
  -- closed or not.
  pub run_unwatched :
      (rounds : List Round) (c : Config r Source)
      → All IsUnwatched rounds
      → (run rounds c).1 ≡ false
  unfolding run
  run_unwatched [] c none_came = refl
  run_unwatched (round ∷ rounds) c (here, none_came) =
      let tail = run_unwatched rounds (round.others c) none_came in rw here tail
