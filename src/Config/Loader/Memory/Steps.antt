-- ===== src/Config/Loader/Memory/Steps.antt =====
-- What may happen to a loader, one locked part at a time, and what always holds of it.
use finokit.Base.{
  ℕ, zero, suc, [], ◌∷◌, ◌++◌, List, Option, none, some, Text, All, ℤ, Result, ok, ◌≡◌,
}
use finokit.Config.Loader.Watchers.{Reader, Watcher}
use finokit.Config.Loader.Memory.{Snapshot, Memory, sync, source_changed, load_one, reload}
use finokit.Config.Loader.Memory.Access.{get_locked, watch_locked, close}

-- A source stands at an index of a list.
abbrev pub At : {A : Type 0} → ℕ → A → List A → Type 0
At i s [] = ⊥
At zero s (t ∷ ts) = t ≡ s
At (suc i) s (t ∷ ts) = At i s ts

-- `From s ch` says that a source returned a change set.
module _ (r : Reader) (Source : Type 0) (From : Source → r.ChangeSet → Type 0) where
  -- One locked part: of the loop of `Load`, of `reload` and `Sync`, of the goroutine of a watched source,
  -- of `Get`, `Watch` and `Close`; or what changes the list of watchers alone: a watcher's `Next` or
  -- `Stop`, its removal, and a send of `update`, which may come later than the part it stands in here.
  pub data Step : Memory r Source → Memory r Source → Type 0 where
    appends :
        (s : Source) (ch : r.ChangeSet) (m : Memory r Source)
        → From s ch
        → Step m (load_one r Source s ch m)
    reloads : (now : ℤ) (m : Memory r Source) → Step m (reload r Source now m).1
    syncs :
        (read : Source → Result Text r.ChangeSet) (now : ℤ) (m : Memory r Source)
        → Step m (sync r Source read now m).1
    changes :
        (idx : ℕ) (s : Source) (before after : List (ℕ × Source)) (cs : r.ChangeSet) (now : ℤ)
        (m : Memory r Source)
        → m.watched ≡ before ++ (idx, s) ∷ after
        → From s cs
        → Step m (source_changed r Source idx cs now m).1
    gets : (path : List Text) (m : Memory r Source) → Step m (get_locked r Source path m).1
    watches :
        (path : List Text) (v : r.Value) (m : Memory r Source)
        → Step m (watch_locked r Source path v m).1
    watchers_move :
        (ws : List (Watcher r)) (m : Memory r Source) → Step m (record m { watchers = ws })
    closes : (m : Memory r Source) → Step m (close r Source m)

  pub data Steps : Memory r Source → Memory r Source → Type 0 where
    here : (m : Memory r Source) → Steps m m
    there : {m n k : Memory r Source} → Step m n → Steps n k → Steps m k

  -- The values are those of the snapshot: parsed from its change set.
  abbrev pub Consistent : Option r.Values → Option (Snapshot r Source) → Type 0
  Consistent none snap = Unit
  Consistent (some vals) snap =
      (s : Snapshot r Source) × (snap ≡ some s) × (r.values s.change_set ≡ ok vals)

  -- One change set for each source, in the same order, each returned by its source.
  abbrev pub Paired : List Source → List (Option r.ChangeSet) → Type 0
  Paired [] [] = Unit
  Paired [] (o ∷ os) = ⊥
  Paired (s ∷ ss) [] = ⊥
  Paired (s ∷ ss) (none ∷ os) = ⊥
  Paired (s ∷ ss) (some ch ∷ os) = From s ch × Paired ss os

  -- Each source has its change set at its index, each goroutine has its source's index, and the values
  -- are those of the snapshot.
  pub record IsSound (m : Memory r Source) : Type 0 where
    pub paired : Paired m.sources m.sets
    pub indexed : All (λ (p : ℕ × Source). At p.0 p.1 m.sources) m.watched
    pub consistent : Consistent m.vals m.snap
