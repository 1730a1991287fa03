-- ===== src/Config/Loader/Watchers.antt =====
-- The watchers of config/loader/memory/memory.go: the versions they compare, and their channel,
-- which holds one update.
pub mod Versions
use finokit.Base.{
  ltb_text, List, [], ◌∷◌, Option, none, some, Bool, true, false, Text, text_eq, is_empty, ltb,
  ◌==◌, if◌then◌else◌, ℤ, ltb_ℤ, Result, ok, err, not,
}

-- What the loader uses of its reader (config/reader/reader.go) and of strconv: an interface with
-- change sets, merged values and the value at a path, and ParseInt in base ten and 64 bits.
pub record Reader : Type 1 where
  pub ChangeSet : Type 0
  pub Values : Type 0
  pub Value : Type 0
  pub merge : List (Option ChangeSet) → Result Text ChangeSet
  pub values : ChangeSet → Result Text Values
  pub get : Values → List Text → Result Text (Option Value)
  pub bytes : Value → Text
  pub parse_int : Text → Option ℤ

module _ (r : Reader) where
  unfoldable pub snapshot_newer : Text → Text → Bool
  unfolding ltb_text
  snapshot_newer next current = elim (r.parse_int next) [
    | none ↦ ltb_text current next
    | some n ↦ elim (r.parse_int current) [ none ↦ ltb_text current next | some c ↦ ltb_ℤ c n ]
  ]

  pub record UpdateValue : Type 0 where
    pub value : Option r.Value
    pub version : Text

  -- A value of none is a nil value, on which the code would fail.
  pub record Watcher : Type 0 where
    pub path : List Text
    pub value : r.Value
    pub version : Text
    pub updates : Option UpdateValue
    pub stopped : Bool

  -- `val, _ := vals.Get(path)`: an error leaves nil.
  unfoldable pub value_at : r.Values → List Text → Option r.Value
  value_at vals path = elim (r.get vals path) [ ok v ↦ v | err e ↦ none ]

  -- The loop of `update` on one watcher, in two steps: the test of the version, which gives an update
  -- to send where the version is newer, and the send, which drops it where the channel is full.
  unfoldable pub offer : r.Values → Text → Watcher → Option UpdateValue
  unfolding snapshot_newer value_at
  offer vals version w =
      if snapshot_newer version w.version
      then some (record { value = value_at vals w.path; version = version })
      else none

  unfoldable pub push : UpdateValue → Watcher → Watcher
  push uv w = elim w.updates [ some pending ↦ w | none ↦ record w { updates = some uv } ]

  -- Both steps, with nothing in between.
  unfoldable pub send : r.Values → Text → Watcher → Watcher
  unfolding offer push
  send vals version w = elim (offer vals version w) [ none ↦ w | some uv ↦ push uv w ]

  -- What a turn of the loop of `Next` does with an update: wait on, or return the value's bytes and
  -- its version, which become the snapshot.
  unfoldable pub receive : UpdateValue → Watcher → Option (Text × Text) × Watcher
  unfolding snapshot_newer
  receive uv w = elim (snapshot_newer uv.version w.version) [
    | false ↦ (none, w)
    | true ↦ elim uv.value [
      | none ↦ (none, w)
      | some v ↦
          if text_eq (r.bytes w.value) (r.bytes v)
          then (none, record w { version = uv.version })
          else (some (r.bytes v, uv.version), record w { version = uv.version; value = v })
    ]
  ]

  -- What `Next` finds: nothing to receive yet, or an update that it took.
  unfoldable pub next : Watcher → Option (Text × Text) × Watcher
  unfolding receive
  next w = elim w.updates [ none ↦ (none, w) | some uv ↦ receive uv (record w { updates = none }) ]

  unfoldable pub stop : Watcher → Watcher
  stop w = record w { stopped = true }
