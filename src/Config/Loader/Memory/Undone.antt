-- ===== src/Config/Loader/Memory/Undone.antt =====
-- What is left of a `Sync` after the next change of a source.
use finokit.Base.{
  ℕ, Option, none, some, Text, set, ℤ, Result, ok, err, ◌≡◌, sym, ap, ◌∙◌, arith, inl, inr,
  Option-cases,
}
use finokit.Config.Loader.Watchers.{Reader}
use finokit.Config.Loader.Memory.{gen_ver, Memory, install, read_all, rebuild, sync, source_changed}
use finokit.Config.Loader.Memory.Loads.{update-keeps, rebuild-keeps}

module _ (r : Reader) (Source : Type 0) where
  -- The values of a change set, as the goroutine of a source keeps them: none where it cannot be parsed.
  abbrev pub parsed : r.ChangeSet → Option r.Values
  parsed cs = elim (r.values cs) [ ok v ↦ some v | err e ↦ none ]

  sync-keeps :
      (read : Source → Result Text r.ChangeSet) (now : ℤ) (m : Memory r Source)
      → (sync r Source read now m).1.sets ≡ m.sets
  unfolding sync
  sync-keeps read now m =
      let built = rebuild r Source (read_all r Source read m.sources).0 now m in
      let kept = rebuild-keeps r Source (read_all r Source read m.sources).0 now m in
      elim (Option-cases built.0) [
        | inl fine ↦ ground (arith, kept)
        | inr (e, bad) ↦ ground (arith, kept)
      ]

  source_changed-installs :
      (idx : ℕ) (cs : r.ChangeSet) (now : ℤ) (m : Memory r Source) (merged : r.ChangeSet)
      → r.merge (set m.sets idx (some cs)) ≡ ok merged
      → ((source_changed r Source idx cs now m).1.vals ≡ parsed merged)
        × ((source_changed r Source idx cs now m).1.snap
            ≡ some (record { change_set = merged; version = gen_ver now }))
  unfolding source_changed install
  source_changed-installs idx cs now m merged went =
      let m₁ : Memory r Source = record m { sets = set m.sets idx (some cs) } in
      let kept = update-keeps r Source (install r Source (parsed merged) merged now m₁) in
      (ground (arith, kept), ground (arith, kept))

  -- Whatever the sources say when `Sync` reads them: the next change set that a source's watcher gives,
  -- where the loader's sets can be merged with it in its place, leaves the loader with the values and the
  -- snapshot that it would have without the `Sync`: what `Sync` read of every other source is gone.
  pub source_changed-sync :
      (read : Source → Result Text r.ChangeSet) (before : ℤ) (idx : ℕ) (cs : r.ChangeSet) (now : ℤ)
      (m : Memory r Source) (merged : r.ChangeSet)
      → r.merge (set m.sets idx (some cs)) ≡ ok merged
      → let synced = (sync r Source read before m).1 in
        ((source_changed r Source idx cs now synced).1.vals
          ≡ (source_changed r Source idx cs now m).1.vals)
        × ((source_changed r Source idx cs now synced).1.snap
            ≡ (source_changed r Source idx cs now m).1.snap)
  source_changed-sync read before idx cs now m merged went =
      let synced = (sync r Source read before m).1 in
      let went' : r.merge (set synced.sets idx (some cs)) ≡ ok merged =
        ap (λ sets. r.merge (set sets idx (some cs))) (sync-keeps read before m) ∙ went in
      let with_sync = source_changed-installs idx cs now synced merged went' in
      let without = source_changed-installs idx cs now m merged went in
      (with_sync.0 ∙ sym without.0, with_sync.1 ∙ sym without.1)
