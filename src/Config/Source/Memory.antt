-- ===== src/Config/Source/Memory.antt =====
-- config/source/memory/: a source that is written by hand, and its watchers. Each runs under the
-- source's lock, so a call is one function.
pub mod Queues
mod Tests
use finokit.Base.{
  ℕ, List, [], ◌∷◌, ◌++◌, Option, none, some, Bool, true, false, ◌==◌, ltb, length, Text, text, ℤ,
  pos, if◌then◌else◌, map,
}
use finokit.Config.Source.{ChangeSet, summed, Next, returned, stopped, blocked}

-- A watcher with its channel of updates; one that is stopped is not in the source's map.
pub record Watcher : Type 0 where
  pub id : ℕ
  pub updates : List ChangeSet
  pub exited : Bool

pub record Memory : Type 0 where
  pub change_set : Option ChangeSet
  pub watchers : List Watcher

abbrev pub channel_size : ℕ
channel_size = 100

unfoldable pub read : Memory → ChangeSet
read m = elim m.change_set [
  | none ↦ record {
    content = [];
    checksum = [];
    format = [];
    source = text "memory";
    timestamp = pos 0;
  }
  | some c ↦ c
]

-- The new watcher has an identifier of its own.
unfoldable pub watch : ℕ → Memory → Memory
watch id m = record m { watchers = record { id = id; updates = []; exited = false } ∷ m.watchers }

-- The send with a default branch: a full channel takes nothing.
unfoldable pub send : ChangeSet → Watcher → Watcher
send c w =
    if w.exited
    then w
    else if ltb (length w.updates) channel_size
    then record w { updates = w.updates ++ c ∷ [] }
    else w

-- The change set that `Update` makes of one that it is given.
unfoldable pub stored : (Text → Text) → ℤ → ChangeSet → ChangeSet
unfolding summed
stored hash now c = summed hash (record {
  content = c.content;
  checksum = [];
  format = c.format;
  source = text "memory";
  timestamp = now;
})

unfoldable pub update : (Text → Text) → ℤ → Option ChangeSet → Memory → Memory
unfolding send stored
update hash now none m = m
update hash now (some c) m =
    let cs = stored hash now c in
    record { change_set = some cs; watchers = map (send cs) m.watchers }

unfoldable pub write : (Text → Text) → ℤ → ChangeSet → Memory → Memory
unfolding update
write hash now c m = update hash now (some c) m

-- `Next`; where both branches of the select are ready, `prefers_exit` says which is taken.
unfoldable pub next : Bool → Watcher → Next × Watcher
next prefers_exit w = elim w.updates [
  | [] ↦ (if w.exited then stopped else blocked, w)
  | c ∷ cs ↦
      if w.exited
      then (if prefers_exit then (stopped, w) else (returned c, record w { updates = cs }))
      else (returned c, record w { updates = cs })
]

unfoldable pub stop : Watcher → Watcher
stop w = record w { exited = true }

-- `NewSource`, with the change set of the context.
unfoldable pub new_source : (Text → Text) → ℤ → ℤ → Text → Option ChangeSet → Memory
unfolding update
new_source hash started now format given = update hash now given (record {
  change_set = some (record {
    content = [];
    checksum = [];
    format = format;
    source = text "memory";
    timestamp = started;
  });
  watchers = [];
})
