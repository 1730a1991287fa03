-- ===== src/Config/Loader/Memory/Watching.antt =====
-- The goroutine `watch` of config/loader/memory/memory.go on one source, as the sequence of its rounds:
-- each watches the source, takes the change sets that the source's watcher returns up to its error, and
-- looks whether `exit` is closed. What other goroutines do in between is a function. The sleeps are left
-- out, and so is the goroutine that stops the source's watcher.
use finokit.Base.{ℕ, List, [], ◌∷◌, Option, none, some, Bool, true, false, ℤ, if◌then◌else◌}
use finokit.Config.Loader.Watchers.{Reader}
use finokit.Config.Loader.Memory.{Memory, source_changed}

module _ (r : Reader) (Source : Type 0) where
  -- What the others do before the goroutine has the lock, the change set that came, and the time.
  pub record Change : Type 0 where
    pub others : Memory r Source → Memory r Source
    pub change_set : r.ChangeSet
    pub now : ℤ

  pub record Round : Type 0 where
    -- none where the source could not be watched
    pub came : Option (List Change)
    pub closed : Bool

  -- The loop of the function `watch`: it ends at the first change set that cannot be merged.
  unfoldable pub watch_loop : ℕ → List Change → Memory r Source → Memory r Source
  unfolding source_changed
  watch_loop idx [] m = m
  watch_loop idx (ch ∷ came) m =
      let (e, m') = source_changed r Source idx ch.change_set ch.now (ch.others m) in
      let later = watch_loop idx came m' in elim e [ some failed ↦ m' | none ↦ later ]

  -- All rounds, and whether the goroutine has ended.
  unfoldable pub watch : ℕ → List Round → Memory r Source → Memory r Source × Bool
  unfolding watch_loop
  watch idx [] m = (m, false)
  watch idx (round ∷ rounds) m = elim round.came [
    | none ↦ watch idx rounds m
    | some came ↦
        let later = watch idx rounds (watch_loop idx came m) in
        if round.closed then (watch_loop idx came m, true) else later
  ]
