-- ===== src/Config/Source/Memory/Queues.antt =====
-- A watcher against a queue without a bound, and the source against its last update.
use mathlib.Core.Path.{subst}
use finokit.Base.{
  ◌<◌, List, [], ◌∷◌, ◌++◌, some, true, false, length, ltb, Text, ℤ, map, ◌≡◌, refl, ap, sym, ◌∙◌,
  arith,
}
use finokit.Config.Source.{ChangeSet, Next, returned, blocked}
use finokit.Config.Source.Memory.{Memory, Watcher, channel_size, read, send, next, stored, update}

-- What happens to a source and the watcher that was made last: an update at a time, or a call of `Next`.
pub data Event : Type 0 where
  written : ℤ → ChangeSet → Event
  asked : Event

module _ (hash : Text → Text) where
  -- The results of the calls of `Next`, and the source at the end.
  unfoldable pub run : List Event → Memory → List Next × Memory
  unfolding update next
  run [] m = ([], m)
  run (written now c ∷ es) m = run es (update hash now (some c) m)
  run (asked ∷ es) m = elim m.watchers [
    | [] ↦ run es m
    | w ∷ ws ↦
        let (r, w') = next false w in
        let (rs, m') = run es (record m { watchers = w' ∷ ws }) in (r ∷ rs, m')
  ]

  -- The same calls on a queue without a bound.
  unfoldable pub fifo : List Event → List ChangeSet → List Next
  unfolding stored
  fifo [] q = []
  fifo (written now c ∷ es) q = fifo es (q ++ stored hash now c ∷ [])
  fifo (asked ∷ es) [] = blocked ∷ fifo es []
  fifo (asked ∷ es) (c ∷ q) = returned c ∷ fifo es q

  -- Never more than 100 updates wait.
  abbrev pub Fits : List Event → List ChangeSet → Type 0
  Fits [] q = Unit
  Fits (written now c ∷ es) q = (length q < channel_size) × Fits es (q ++ stored hash now c ∷ [])
  Fits (asked ∷ es) [] = Fits es []
  Fits (asked ∷ es) (c ∷ q) = Fits es q

  -- The last change set that is written, or the one that was there.
  unfoldable pub last_written : List Event → ChangeSet → ChangeSet
  unfolding stored
  last_written [] c = c
  last_written (written now c ∷ es) old = last_written es (stored hash now c)
  last_written (asked ∷ es) old = last_written es old

  send-room :
      (c : ChangeSet) (w : Watcher)
      → w.exited ≡ false
      → length w.updates < channel_size
      → send c w ≡ record w { updates = w.updates ++ c ∷ [] }
  unfolding send
  send-room c w open_ room =
      let free : ltb (length w.updates) channel_size ≡ true = ground arith in rw (open_, free) refl

  next_waiting :
      (w : Watcher) (c : ChangeSet) (q : List ChangeSet)
      → w.exited ≡ false
      → w.updates ≡ c ∷ q
      → next false w ≡ (returned c, record w { updates = q })
  unfolding next
  next_waiting w c q live waits = rw (next, waits, live) refl

  next_empty : (w : Watcher) → w.exited ≡ false → w.updates ≡ [] → next false w ≡ (blocked, w)
  unfolding next
  next_empty w live waits = ground arith

  run-asked :
      (es : List Event) (m : Memory) (w w' : Watcher) (ws : List Watcher) (r : Next)
      → m.watchers ≡ w ∷ ws
      → next false w ≡ (r, w')
      → run (asked ∷ es) m ≡ (
        r ∷ (run es (record m { watchers = w' ∷ ws })).0,
        (run es (record m { watchers = w' ∷ ws })).1,
      )
  unfolding run
  run-asked es m w w' ws r has takes = rw (run, has, takes) refl

  run-fifo_at :
      (es : List Event) (m : Memory) (w : Watcher) (ws : List Watcher) (q : List ChangeSet)
      → m.watchers ≡ w ∷ ws
      → w.exited ≡ false
      → w.updates ≡ q
      → Fits es q
      → ((run es m).0 ≡ fifo es q) × (read (run es m).1 ≡ last_written es (read m))
  unfolding run fifo last_written read update
  run-fifo_at [] m w ws q has live waits fits = (refl, refl)
  run-fifo_at (written now c ∷ es) m w ws q has live waits (room, fits) =
      let cs = stored hash now c in
      let sent : map (send cs) m.watchers
          ≡ record w { updates = w.updates ++ cs ∷ [] } ∷ map (send cs) ws =
        ap (map (send cs)) has
        ∙ ap (λ v. v ∷ map (send cs) ws)
            (send-room cs w live (subst (λ u. length u < channel_size) (sym waits) room)) in
      run-fifo_at es (update hash now (some c) m) (record w { updates = w.updates ++ cs ∷ [] })
        (map (send cs) ws) (q ++ cs ∷ []) sent live (ap (λ u. u ++ cs ∷ []) waits) fits
  run-fifo_at (asked ∷ es) m w ws [] has live waits fits =
      let step = run-asked es m w w ws blocked has (next_empty w live waits) in
      let (results, at_end) =
        run-fifo_at es (record m { watchers = w ∷ ws }) w ws [] refl live waits fits in
      (ap (λ r. r.0) step ∙ ap (λ rs. blocked ∷ rs) results, ap (λ r. read r.1) step ∙ at_end)
  run-fifo_at (asked ∷ es) m w ws (c ∷ q) has live waits fits =
      let w' : Watcher = record w { updates = q } in
      let step = run-asked es m w w' ws (returned c) has (next_waiting w c q live waits) in
      let (results, at_end) =
        run-fifo_at es (record m { watchers = w' ∷ ws }) w' ws q refl live refl fits in
      (ap (λ r. r.0) step ∙ ap (λ rs. returned c ∷ rs) results, ap (λ r. read r.1) step ∙ at_end)

  -- While no more than 100 updates wait, a watcher that is not stopped returns, for any order of updates
  -- and calls of `Next`, just what a queue without a bound returns, the updates that wait at the start
  -- first, and blocks where that queue is empty; and `Read` then gives the last update, or what it gave
  -- before where there was none.
  pub run-fifo :
      (es : List Event) (m : Memory) (w : Watcher) (ws : List Watcher)
      → m.watchers ≡ w ∷ ws
      → w.exited ≡ false
      → Fits es w.updates
      → ((run es m).0 ≡ fifo es w.updates) × (read (run es m).1 ≡ last_written es (read m))
  run-fifo es m w ws has live fits = run-fifo_at es m w ws w.updates has live refl fits
