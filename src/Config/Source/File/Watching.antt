-- ===== src/Config/Source/File/Watching.antt =====
-- config/source/file/watcher_linux.go and watcher.go: the watcher of a file. The package fsnotify is a record
-- of its operations on a state; what the file's `Read` gives is an argument.
use finokit.Base.{
  Option, none, some, Bool, true, false, ◌&&◌, Text, Result, ok, err, ◌≡◌, if◌then◌else◌,
}
use finokit.Config.Source.{ChangeSet, NoopWatcher, new_noop_watcher}
use finokit.Config.Source.File.{Error, system}

-- What is received: an event with its file's name and whether it is a renaming, an error, or that the
-- channels are closed.
pub data Received : Type 0 where
  event : Text → Bool → Received
  failure : Text → Received
  closed : Received

pub data Next : Type 0 where
  returned : ChangeSet → Next
  failed : Error → Next
  stopped : Next

-- fsnotify on its state W, where an error of `Add` is ignored, and what it documents of `Add`.
pub record Notify (W : Type 0) : Type 1 where
  pub add : Text → W → W
  pub close : W → W
  pub Watches : Text → W → Type 0
  pub add_watches : (p : Text) (w : W) → Watches p (add p w)

-- `newWatcher`, with the state of a new fsnotify watcher.
unfoldable pub new_watcher : {W : Type 0} → Notify W → Text → W → W
new_watcher fsnotify path w = fsnotify.add path w

module _ {W : Type 0} (fsnotify : Notify W) (path : Text) (exists_file : Text → Bool) where
  -- `Next`, with what the file's `Read` gives; on Linux the path is added again after it.
  unfoldable pub next : Bool → Received → Result Error ChangeSet → W → Next × W
  next on_linux closed read w = (stopped, w)
  next on_linux (failure e) read w = (failed (system e), w)
  next on_linux (event name renamed) read w =
      let added = if renamed && exists_file name then fsnotify.add name w else w in
      elim read [
        | err e ↦ (failed e, added)
        | ok c ↦ (returned c, if on_linux then fsnotify.add path added else added)
      ]

  unfoldable pub stop : W → W
  stop w = fsnotify.close w

  -- On Linux, after a change set was returned the path is watched, whatever the event was, also when it
  -- was that the file was renamed or replaced.
  next-Watches :
      (r : Received) (read : Result Error ChangeSet) (w : W) (c : ChangeSet)
      → (next true r read w).0 ≡ returned c
      → fsnotify.Watches path (next true r read w).1
  unfolding next
  next-Watches closed read w c went = cc
  next-Watches (failure e) read w c went = cc
  next-Watches (event name renamed) (err e) w c went = cc
  next-Watches (event name renamed) (ok cs) w c went =
      fsnotify.add_watches path (if renamed && exists_file name then fsnotify.add name w else w)

-- What `Watch` of a file gives: the watcher of a source that never changes, where a file system is given, or
-- one of fsnotify.
pub data Watcher (W : Type 0) : Type 0 where
  noop : NoopWatcher → Watcher W
  notified : W → Watcher W

unfoldable pub watch :
    {W : Type 0} → Notify W → Text → Bool → Option Text → Result Text W → Result Error (Watcher W)
unfolding new_watcher
watch fsnotify path has_fs stat made = elim has_fs [
  | true ↦ ok (noop new_noop_watcher)
  | false ↦ elim stat [
    | some e ↦ err (system e)
    | none ↦ elim made [
      | err e ↦ err (system e)
      | ok w ↦ ok (notified (new_watcher fsnotify path w))
    ]
  ]
]
