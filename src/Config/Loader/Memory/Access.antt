-- ===== src/Config/Loader/Memory/Access.antt =====
-- The methods of the loader in config/loader/memory/memory.go that read its state. Each first sees to
-- it that the loader is loaded, and takes the lock again later: what runs in between is not this
-- method's, so the two parts are two functions.
use finokit.Base.{
  ℕ, suc, List, [], ◌∷◌, ◌++◌, Option, none, some, Bool, true, false, Text, if◌then◌else◌, ℤ,
  Result, ok, err, map,
}
use finokit.Config.Loader.Watchers.{Reader, Watcher}
use finokit.Config.Loader.Memory.{Snapshot, Memory, sync, loaded}

-- How a locked part ends: with a value, an error, or by following a nil pointer.
pub data Outcome (A : Type 0) : Type 0 where
  done : A → Outcome A
  failed : Text → Outcome A
  nil_pointer : Outcome A

module _ (r : Reader) (Source : Type 0) where
  abbrev State : Type 0
  State = Memory r Source

  -- The first part of `Get` and `Snapshot`, with what others do between the test and the lock of `Sync`.
  unfoldable pub ensure_loaded :
      (Source → Result Text r.ChangeSet) → ℤ → (State → State) → State → Option (List Text) × State
  unfolding loaded sync
  ensure_loaded read now others m =
      let synced = sync r Source read now (others m) in
      if loaded r Source m then (none, m) else synced

  -- `loader.Copy(m.snap)`
  unfoldable pub copy_snapshot : State → Outcome (Snapshot r Source)
  copy_snapshot m = elim m.snap [ none ↦ nil_pointer | some snap ↦ done snap ]

  abbrev pub got : Result Text (Option r.Value) → Outcome (Option r.Value)
  got (ok v) = done v
  got (err e) = failed e

  -- The locked part of `Get`, with its way out where the values are missing.
  unfoldable pub get_locked : List Text → State → Outcome (Option r.Value) × State
  get_locked path m = elim m.vals [
    | some vals ↦ (got (r.get vals path), m)
    | none ↦ elim m.snap [
      | none ↦ (nil_pointer, m)
      | some snap ↦ elim (r.values snap.change_set) [
        | err e ↦ (failed e, m)
        | ok vals ↦ (got (r.get vals path), record m { vals = some vals })
      ]
    ]
  ]

  -- The locked part of `Watch`, with the value that its `Get` returned.
  unfoldable pub watch_locked : List Text → r.Value → State → Outcome (Watcher r) × State
  watch_locked path value m = elim m.snap [
    | none ↦ (nil_pointer, m)
    | some snap ↦
        let w : Watcher r = record {
          path = path;
          value = value;
          version = snap.version;
          updates = none;
          stopped = false;
        } in
        (done w, record m { watchers = m.watchers ++ w ∷ [] })
  ]

  unfoldable pub close : State → State
  close m = record m { exited = true }

  abbrev pub indices_from : ℕ → List Source → List (ℕ × Source)
  indices_from i [] = []
  indices_from i (s ∷ ss) = (i, s) ∷ indices_from (suc i) ss

  -- `NewLoader`; the change set that a source starts with holds its name alone.
  unfoldable pub new_loader : (Source → r.ChangeSet) → Bool → List Source → State
  new_loader named disabled sources = record {
    vals = none;
    snap = none;
    watchers = [];
    watcher_disabled = disabled;
    sets = map (λ s. some (named s)) sources;
    sources = sources;
    watched = if disabled then [] else indices_from 0 sources;
    exited = false;
  }
