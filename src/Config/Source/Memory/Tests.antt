-- ===== src/Config/Source/Memory/Tests.antt =====
-- Runs of the memory source, with a hash that gives the text itself.
use finokit.Base.{List, [], ◌∷◌, some, false, Text, text, pos, ◌≡◌, refl, arith}
use finokit.Config.Source.{ChangeSet, returned, blocked}
use finokit.Config.Source.Memory.{Memory, Watcher, read, stored}
use finokit.Config.Source.Memory.Queues.{Event, written, asked, run, fifo, last_written, run-fifo}

abbrev hash : Text → Text
hash t = t

abbrev given : Text → ChangeSet
given t = record {
  content = t;
  checksum = [];
  format = text "json";
  source = [];
  timestamp = pos 0;
}

abbrev watcher : Watcher
watcher = record { id = 1; updates = []; exited = false }

abbrev watched : Memory
watched = record { change_set = some (given []); watchers = watcher ∷ [] }

abbrev events : List Event
events =
    asked
    ∷ written (pos 1) (given (text "{}"))
    ∷ written (pos 2) (given (text "[]"))
    ∷ asked
    ∷ asked
    ∷ []

run-fifo_example :
    ((run hash events watched).0 ≡ fifo hash events [])
    × (read (run hash events watched).1 ≡ last_written hash events (read watched))
run-fifo_example =
    run-fifo hash events watched watcher [] refl refl (omega arith, (omega arith, tt))

returns_in_order :
    fifo hash events []
    ≡ blocked
      ∷ returned (stored hash (pos 1) (given (text "{}")))
      ∷ returned (stored hash (pos 2) (given (text "[]")))
      ∷ []
unfolding fifo
returns_in_order = refl
