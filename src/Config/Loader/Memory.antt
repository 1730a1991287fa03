-- ===== src/Config/Loader/Memory.antt =====
-- The state of the loader in config/loader/memory/memory.go, and the methods that load and sync. The
-- values and the snapshot that `update` reads are those just installed, and its sends are taken
-- together; Memory.Steps is on the parts of these methods, in any order.
pub mod Access
pub mod Steps
pub mod Keeps
pub mod Reachable
pub mod Loaded
pub mod Loads
pub mod Watching
pub mod Undone
use finokit.Base.{
  ℕ, zero, suc, List, [], ◌∷◌, ◌++◌, map, Option, none, some, Bool, true, false, Text, text,
  is_empty, length, if◌then◌else◌, ℤ, Result, ok, err, format_int, set,
}
use finokit.Config.Loader.Watchers.{Reader, Watcher, send, stop}

-- `fmt.Sprintf("%d", time.Now().UnixNano())`
unfoldable pub gen_ver : ℤ → Text
unfolding format_int
gen_ver now = format_int now

-- An error of the messages, if there are any.
abbrev pub if_any : List Text → Option (List Text)
if_any [] = none
if_any (e ∷ es) = some (e ∷ es)

module _ (r : Reader) (Source : Type 0) where
  pub record Snapshot : Type 0 where
    pub change_set : r.ChangeSet
    pub version : Text

  pub record Memory : Type 0 where
    pub vals : Option r.Values
    pub snap : Option Snapshot
    pub watchers : List (Watcher r)
    pub watcher_disabled : Bool
    pub sets : List (Option r.ChangeSet)
    pub sources : List Source
    -- the indices and sources that the goroutines running `watch` were given
    pub watched : List (ℕ × Source)
    pub exited : Bool

  -- The locked end of `Sync`, `reload` and `watch`.
  unfoldable pub install : Option r.Values → r.ChangeSet → ℤ → Memory → Memory
  unfolding gen_ver
  install vals change_set now m = record m {
    vals = vals;
    snap = some (record { change_set = change_set; version = gen_ver now });
  }

  unfoldable pub update : Memory → Memory
  unfolding send
  update m = elim m.vals [
    | none ↦ m
    | some vals ↦ elim m.snap [
      | none ↦ m
      | some snap ↦ record m { watchers = map (send r vals snap.version) m.watchers }
    ]
  ]

  -- Merge some sets, parse them, install both and tell the watchers: `reload`, and the end of `Sync`.
  unfoldable pub rebuild : List (Option r.ChangeSet) → ℤ → Memory → Option Text × Memory
  unfolding install update
  rebuild sets now m = elim (r.merge sets) [
    | err e ↦ (some e, m)
    | ok change_set ↦ elim (r.values change_set) [
      | err e ↦ (some e, m)
      | ok vals ↦ (none, update (install (some vals) change_set now m))
    ]
  ]

  unfoldable pub reload : ℤ → Memory → Option Text × Memory
  unfolding rebuild
  reload now m = rebuild m.sets now m

  -- What the sources return: the change sets, and the errors.
  unfoldable pub read_all :
      (Source → Result Text r.ChangeSet) → List Source → List (Option r.ChangeSet) × List Text
  read_all read [] = ([], [])
  read_all read (s ∷ ss) =
      let (sets, errors) = read_all read ss in
      elim (read s) [ ok ch ↦ (some ch ∷ sets, errors) | err e ↦ (sets, e ∷ errors) ]

  -- `Sync`; its error holds those of the sources that could not be read.
  unfoldable pub sync :
      (Source → Result Text r.ChangeSet) → ℤ → Memory → Option (List Text) × Memory
  unfolding read_all rebuild
  sync read now m =
      let (sets, errors) = read_all read m.sources in
      let (e, m') = rebuild sets now m in
      elim e [ some failed ↦ (some (failed ∷ []), m') | none ↦ (if_any errors, m') ]

  -- The body of the loop in `watch`, once the source's watcher gave a change set for its index.
  unfoldable pub source_changed : ℕ → r.ChangeSet → ℤ → Memory → Option Text × Memory
  unfolding install update
  source_changed idx cs now m =
      let m₁ = record m { sets = set m.sets idx (some cs) } in
      elim (r.merge m₁.sets) [
        | err e ↦ (some e, m₁)
        | ok change_set ↦ (
          none,
          update (
              install (elim (r.values change_set) [ ok v ↦ some v | err e ↦ none ]) change_set now
                m₁),
        )
      ]

  -- The locked part of the loop of `Load`, with what the source returned, and the start of its goroutine.
  abbrev pub load_one : Source → r.ChangeSet → Memory → Memory
  load_one s ch m = record m {
    sources = m.sources ++ s ∷ [];
    sets = m.sets ++ some ch ∷ [];
    watched = if m.watcher_disabled then m.watched else m.watched ++ (length m.sets, s) ∷ [];
  }

  -- The loop of `Load`: a source that cannot be read is left out.
  unfoldable pub load_each :
      (Source → Result Text r.ChangeSet) → List Source → Memory → List Text × Memory
  load_each read [] m = ([], m)
  load_each read (s ∷ ss) m = elim (read s) [
    | err e ↦ let (errors, m') = load_each read ss m in (e ∷ errors, m')
    | ok ch ↦ load_each read ss (load_one s ch m)
  ]

  unfoldable pub load :
      (Source → Result Text r.ChangeSet) → ℤ → List Source → Memory → Option (List Text) × Memory
  unfolding load_each reload
  load read now ss m =
      let (errors, m₁) = load_each read ss m in
      let (e, m₂) = reload now m₁ in
      let all = errors ++ (elim e [ none ↦ [] | some failed ↦ failed ∷ [] ]) in (if_any all, m₂)

  unfoldable pub loaded : Memory → Bool
  loaded m = elim m.vals [ none ↦ false | some _ ↦ true ]
