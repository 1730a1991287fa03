-- ===== src/Config/Source.antt =====
-- config/source/: where a configuration comes from. The hash is an argument.
pub mod Memory
pub mod File
pub mod Env
pub mod Nats
pub mod Options
use finokit.Base.{Option, none, some, Bool, true, false, Text, ℤ}

-- `ChangeSet`, with its time in nanoseconds.
pub record ChangeSet : Type 0 where
  pub content : Text
  pub checksum : Text
  pub format : Text
  pub source : Text
  pub timestamp : ℤ

-- The change set with its checksum; `hash` writes the SHA-256 of its content in hexadecimal digits.
unfoldable pub summed : (Text → Text) → ChangeSet → ChangeSet
summed hash c = record c { checksum = hash c.content }

-- What `Next` of a watcher comes to.
pub data Next : Type 0 where
  returned : ChangeSet → Next
  stopped : Next
  blocked : Next

-- The watcher of a source that never changes: whether it was stopped.
pub record NoopWatcher : Type 0 where
  pub exited : Bool

unfoldable pub noop_next : NoopWatcher → Next
noop_next w = elim w.exited [ true ↦ stopped | false ↦ blocked ]

unfoldable pub noop_stop : NoopWatcher → NoopWatcher
noop_stop w = record { exited = true }

abbrev pub new_noop_watcher : NoopWatcher
new_noop_watcher = record { exited = false }
