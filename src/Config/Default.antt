-- ===== src/Config/Default.antt =====
-- config/default.go: the configuration that an application reads, over a loader. The loader is an
-- interface: what its calls return is an argument.
pub mod Consistency
pub mod Running
pub mod Newest
pub mod Follows
mod Tests
pub mod Starting
pub mod Watching
use finokit.Base.{
  List, [], ◌∷◌, Option, none, some, Bool, true, false, Text, text_eq, if◌then◌else◌, Result, ok,
  err,
}
use finokit.Config.Loader.Watchers.{Reader, snapshot_newer}
use finokit.Config.Loader.Memory.{Snapshot}

-- What changes the parsed values in place, and reads them whole.
pub record Edits (r : Reader) : Type 0 where
  pub set_value : r.Value → List Text → r.Values → r.Values
  pub delete_value : List Text → r.Values → r.Values
  pub all_bytes : r.Values → Text
  -- the bytes of a change set, and the value at the empty path of its values
  pub data_of : r.ChangeSet → Text

module _ (r : Reader) (Source : Type 0) where
  pub record Config : Type 0 where
    pub vals : Option r.Values
    pub snap : Option (Snapshot r Source)
    pub exited : Bool

  -- The end of `Init`, `Sync` and `Load`, with what the loader's call and its `Snapshot` returned; the
  -- snapshot is kept even where its values are not.
  unfoldable pub take_snapshot :
      Option Text → Result Text (Snapshot r Source) → Config → Option Text × Config
  take_snapshot (some e) snapshot c = (some e, c)
  take_snapshot none (err e) c = (some e, c)
  take_snapshot none (ok snap) c = elim (r.values snap.change_set) [
    | err e ↦ (some e, record c { snap = some snap })
    | ok vals ↦ (none, record c { vals = some vals; snap = some snap })
  ]

  -- `Init`, `Sync` and `Load`
  unfoldable pub init : Option Text → Result Text (Snapshot r Source) → Option Text × Config
  unfolding take_snapshot
  init loaded snapshot =
      take_snapshot loaded snapshot (record { vals = none; snap = none; exited = false })

  unfoldable pub sync :
      Option Text → Result Text (Snapshot r Source) → Config → Option Text × Config
  unfolding take_snapshot
  sync synced snapshot c = take_snapshot synced snapshot c

  unfoldable pub load :
      Option Text → Result Text (Snapshot r Source) → Config → Option Text × Config
  unfolding take_snapshot
  load loaded snapshot c = take_snapshot loaded snapshot c

  -- `snapshotNewerVersion`, which has the body of the loader's `snapshotNewer`.
  unfoldable pub snapshot_newer_version : Text → Text → Bool
  unfolding snapshot_newer
  snapshot_newer_version next current = snapshot_newer r next current

  unfoldable pub is_stale : Snapshot r Source → Option (Snapshot r Source) → Bool
  unfolding snapshot_newer_version
  is_stale next none = false
  is_stale next (some current) =
      if snapshot_newer_version next.version current.version then false else true

  -- The locked part of the loop in `run`: a snapshot that the loader's watcher returned.
  unfoldable pub watched : Snapshot r Source → Config → Config
  unfolding is_stale
  watched snap c = elim (is_stale snap c.snap) [
    | true ↦ c
    | false ↦ elim (r.values snap.change_set) [
      | err e ↦ c
      | ok vals ↦ record c { vals = some vals; snap = some snap }
    ]
  ]

  unfoldable pub close : Config → Config
  close c = record c { exited = true }

  -- `Get`; without values it is `newValue()`, here none.
  unfoldable pub get : List Text → Config → Result Text (Option r.Value)
  get path c = elim c.vals [ none ↦ ok none | some vals ↦ r.get vals path ]

  -- `Map` and `Scan`, with what the values give; without values the map is nil, and nothing is scanned.
  unfoldable pub map_of : {M : Type 0} → (r.Values → Option M) → Config → Option M
  map_of map_ c = elim c.vals [ none ↦ none | some vals ↦ map_ vals ]

  unfoldable pub scan : {T : Type 0} → (r.Values → T → Result Text T) → T → Config → Result Text T
  scan scan_all v c = elim c.vals [ none ↦ ok v | some vals ↦ scan_all vals v ]

  module _ (e : Edits r) where
    unfoldable pub set_at : r.Value → List Text → Config → Config
    set_at v path c = elim c.vals [
      | none ↦ c
      | some vals ↦ record c { vals = some (e.set_value v path vals) }
    ]

    unfoldable pub delete_at : List Text → Config → Config
    delete_at path c = elim c.vals [
      | none ↦ c
      | some vals ↦ record c { vals = some (e.delete_value path vals) }
    ]

    unfoldable pub bytes : Config → Text
    bytes c = elim c.vals [ none ↦ [] | some vals ↦ e.all_bytes vals ]

    -- A turn of the loop of `watcher.Next`: none waits on.
    unfoldable pub watcher_next :
        r.Value → Snapshot r Source → Option (Result Text (Option r.Value))
    watcher_next value s =
        if text_eq (r.bytes value) (e.data_of s.change_set)
        then none
        else elim (r.values s.change_set) [ err x ↦ some (err x) | ok vals ↦ some (r.get vals []) ]
