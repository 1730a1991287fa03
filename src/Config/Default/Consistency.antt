-- ===== src/Config/Default/Consistency.antt =====
-- The values that an application reads and the snapshot they come from.
use finokit.Base.{
  List, [], ◌∷◌, Option, none, some, Text, Result, ok, err, ◌≡◌, arith, inl, inr, Bool-cases,
  Result-cases,
}
use finokit.Config.Loader.Watchers.{Reader}
use finokit.Config.Loader.Memory.{Snapshot}
use finokit.Config.Default.{Config, take_snapshot, init, is_stale, watched}

module _ (r : Reader) (Source : Type 0) where
  -- The values are parsed from the snapshot.
  abbrev pub IsParsed : Config r Source → Type 0
  IsParsed c =
      (s : Snapshot r Source) × (vals : r.Values) × (c.snap ≡ some s)
      × (c.vals ≡ some vals)
      × (r.values s.change_set ≡ ok vals)

  pub watched-IsParsed :
      (snap : Snapshot r Source) (c : Config r Source)
      → IsParsed c
      → IsParsed (watched r Source snap c)
  unfolding watched
  watched-IsParsed snap c (s, vals, at, has, parsed) =
      elim (Bool-cases (is_stale r Source snap c.snap)) [
        | inl stale ↦ (s, vals, ground arith, ground arith, parsed)
        | inr fresh ↦ elim (Result-cases (r.values snap.change_set)) [
          | inr (e, bad) ↦ (s, vals, ground arith, ground arith, parsed)
          | inl (new, good) ↦ (snap, new, ground arith, ground arith, good)
        ]
      ]

  unfoldable pub watched_all : List (Snapshot r Source) → Config r Source → Config r Source
  unfolding watched
  watched_all [] c = c
  watched_all (s ∷ ss) c = watched_all ss (watched r Source s c)

  watched_all-IsParsed :
      (ss : List (Snapshot r Source)) (c : Config r Source)
      → IsParsed c
      → IsParsed (watched_all ss c)
  unfolding watched_all
  watched_all-IsParsed [] c h = h
  watched_all-IsParsed (s ∷ ss) c h =
      watched_all-IsParsed ss (watched r Source s c) (watched-IsParsed s c h)

  init-IsParsed :
      (loaded : Option Text) (snapshot : Result Text (Snapshot r Source))
      → (init r Source loaded snapshot).0 ≡ none
      → IsParsed (init r Source loaded snapshot).1
  unfolding init take_snapshot
  init-IsParsed (some e) snapshot went = cc
  init-IsParsed none (err e) went = cc
  init-IsParsed none (ok snap) went = elim (Result-cases (r.values snap.change_set)) [
    | inr (e, bad) ↦ absurd (ground arith)
    | inl (vals, good) ↦ (snap, vals, ground arith, ground arith, good)
  ]

  -- After `Init` returned nil, and whatever snapshots the loader's watcher gives then, newer, older or
  -- such that cannot be parsed, the configuration has values, and they are those of its snapshot.
  pub init_watched_lem :
      (loaded : Option Text) (snapshot : Result Text (Snapshot r Source))
      (ss : List (Snapshot r Source))
      → (init r Source loaded snapshot).0 ≡ none
      → IsParsed (watched_all ss (init r Source loaded snapshot).1)
  init_watched_lem loaded snapshot ss went =
      watched_all-IsParsed ss (init r Source loaded snapshot).1 (init-IsParsed loaded snapshot went)
