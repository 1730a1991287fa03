-- ===== src/Config/Loader/Memory/Loaded.antt =====
-- A loader that was loaded once has a snapshot for ever.
use mathlib.Core.Path.{subst}
use finokit.Base.{
  List, Option, none, some, Text, ℤ, Result, ok, err, ◌≡◌, ◌≢◌, inl, inr, arith, set, Option-cases,
  Result-cases,
}
use finokit.Config.Loader.Watchers.{Reader}
use finokit.Config.Loader.Memory.{
  gen_ver, Snapshot, Memory, install, update, rebuild, reload, read_all, sync, source_changed,
  loaded,
}
use finokit.Config.Loader.Memory.Access.{
  nil_pointer, ensure_loaded, copy_snapshot, get_locked, watch_locked, close,
}
use finokit.Config.Loader.Memory.Steps.{
  Step, appends, reloads, syncs, changes, gets, watches, watchers_move, closes, Steps, here, there,
  Consistent, IsSound,
}

module _ (r : Reader) (Source : Type 0) where
  abbrev pub HasSnapshot : Memory r Source → Type 0
  HasSnapshot m = (s : Snapshot r Source) × (m.snap ≡ some s)

  update-snap : (m : Memory r Source) → (update r Source m).snap ≡ m.snap
  unfolding update
  update-snap m = elim (Option-cases m.vals) [
    | inl missing ↦ ground arith
    | inr (vals, has) ↦ elim (Option-cases m.snap) [
      | inl lost ↦ ground arith
      | inr (s, at) ↦ ground arith
    ]
  ]

  rebuild-HasSnapshot :
      (sets : List (Option r.ChangeSet)) (now : ℤ) (m : Memory r Source)
      → HasSnapshot m
      → HasSnapshot (rebuild r Source sets now m).1
  unfolding rebuild install
  rebuild-HasSnapshot sets now m (s, at) = elim (Result-cases (r.merge sets)) [
    | inr (e, bad) ↦ (s, ground arith)
    | inl (cs, merged) ↦ elim (Result-cases (r.values cs)) [
      | inr (e, bad) ↦ (s, ground arith)
      | inl (vals, parsed) ↦ (
        record { change_set = cs; version = gen_ver now },
        ground (arith, update-snap (install r Source (some vals) cs now m)),
      )
    ]
  ]

  rebuild-installs :
      (sets : List (Option r.ChangeSet)) (now : ℤ) (m : Memory r Source)
      → (rebuild r Source sets now m).0 ≡ none
      → HasSnapshot (rebuild r Source sets now m).1
  unfolding rebuild install
  rebuild-installs sets now m went = elim (Result-cases (r.merge sets)) [
    | inr (e, bad) ↦ absurd (ground arith)
    | inl (cs, merged) ↦ elim (Result-cases (r.values cs)) [
      | inr (e, bad) ↦ absurd (ground arith)
      | inl (vals, parsed) ↦ (
        record { change_set = cs; version = gen_ver now },
        ground (arith, update-snap (install r Source (some vals) cs now m)),
      )
    ]
  ]

  sync-HasSnapshot :
      (read : Source → Result Text r.ChangeSet) (now : ℤ) (m : Memory r Source)
      → HasSnapshot m
      → HasSnapshot (sync r Source read now m).1
  unfolding sync
  sync-HasSnapshot read now m h =
      let sets = (read_all r Source read m.sources).0 in
      let (s, at) = rebuild-HasSnapshot sets now m h in
      elim (Option-cases (rebuild r Source sets now m).0) [
        | inl went ↦ (s, ground arith)
        | inr (e, bad) ↦ (s, ground arith)
      ]

  get_locked-found :
      (path : List Text) (m : Memory r Source) (s : Snapshot r Source)
      → m.snap ≡ some s
      → (get_locked r Source path m).0 ≢ nil_pointer
  unfolding get_locked
  get_locked-found path m s at bad = elim (Option-cases m.vals) [
    | inr (vals, has) ↦ elim (Result-cases (r.get vals path)) [
      | inl (v, e) ↦ ground arith
      | inr (v, e) ↦ ground arith
    ]
    | inl missing ↦ elim (Result-cases (r.values s.change_set)) [
      | inr (e, wrong) ↦ ground arith
      | inl (vals, parsed) ↦ elim (Result-cases (r.get vals path)) [
        | inl (v, e) ↦ ground arith
        | inr (v, e) ↦ ground arith
      ]
    ]
  ]

module _ (r : Reader) (Source : Type 0) (From : Source → r.ChangeSet → Type 0) where
  Step-HasSnapshot :
      {m n : Memory r Source}
      → Step r Source From m n
      → HasSnapshot r Source m
      → HasSnapshot r Source n
  unfolding reload sync source_changed get_locked watch_locked close install
  Step-HasSnapshot (appends s ch m from) h = h
  Step-HasSnapshot (reloads now m) h = rebuild-HasSnapshot r Source m.sets now m h
  Step-HasSnapshot (syncs read now m) h = sync-HasSnapshot r Source read now m h
  Step-HasSnapshot (changes idx source before after cs now m given from) (s, at) =
      let m₁ : Memory r Source = record m { sets = set m.sets idx (some cs) } in
      elim (Result-cases (r.merge m₁.sets)) [
        | inr (e, bad) ↦ (s, ground arith)
        | inl (all, merged) ↦
            let new : Memory r Source =
              install r Source (elim (r.values all) [ ok v ↦ some v | err e ↦ none ]) all now m₁ in
            (
              record { change_set = all; version = gen_ver now },
              ground (arith, update-snap r Source new),
            )
      ]
  Step-HasSnapshot (gets path m) (s, at) = elim (Option-cases m.vals) [
    | inr (vals, has) ↦ (s, ground arith)
    | inl missing ↦ elim (Result-cases (r.values s.change_set)) [
      | inr (e, bad) ↦ (s, ground arith)
      | inl (vals, parsed) ↦ (s, ground arith)
    ]
  ]
  Step-HasSnapshot (watches path v m) (s, at) = (s, ground arith)
  Step-HasSnapshot (watchers_move ws m) (s, at) = (s, at)
  Step-HasSnapshot (closes m) (s, at) = (s, at)

  Steps-HasSnapshot :
      {m n : Memory r Source}
      → Steps r Source From m n
      → HasSnapshot r Source m
      → HasSnapshot r Source n
  Steps-HasSnapshot (here m) h = h
  Steps-HasSnapshot (there one rest) h = Steps-HasSnapshot rest (Step-HasSnapshot one h)

  ensure_loaded-HasSnapshot :
      (read : Source → Result Text r.ChangeSet) (now : ℤ)
      (others : Memory r Source → Memory r Source) (m : Memory r Source)
      → IsSound r Source From m
      → (ensure_loaded r Source read now others m).0 ≡ none
      → HasSnapshot r Source (ensure_loaded r Source read now others m).1
  unfolding ensure_loaded sync loaded
  ensure_loaded-HasSnapshot read now others m sound went = elim (Option-cases m.vals) [
    | inr (vals, has) ↦
        let (s, at, parsed) : Consistent r Source From (some vals) m.snap =
          subst (λ o. Consistent r Source From o m.snap) has sound.consistent in
        (s, ground arith)
    | inl missing ↦
        let sets = (read_all r Source read (others m).sources).0 in
        elim (Option-cases (rebuild r Source sets now (others m)).0) [
          | inr (e, bad) ↦ absurd (ground arith)
          | inl rebuilt ↦
              let (s, at) = rebuild-installs r Source sets now (others m) rebuilt in
              (s, ground arith)
        ]
  ]

  -- Once `Get`, `Snapshot` or `Watch` found a sound loader loaded, or synced it without an error,
  -- whatever other goroutines did before `Sync` had the lock, and whatever steps of theirs come before it
  -- takes the lock again, its locked part follows no nil pointer: there is a snapshot to copy, to parse
  -- again and to take the version of.
  pub never_nil_pointer :
      (read : Source → Result Text r.ChangeSet) (now : ℤ)
      (others : Memory r Source → Memory r Source) (m n : Memory r Source) (path : List Text)
      (v : r.Value)
      → IsSound r Source From m
      → (ensure_loaded r Source read now others m).0 ≡ none
      → Steps r Source From (ensure_loaded r Source read now others m).1 n
      → (copy_snapshot r Source n ≢ nil_pointer)
        × ((get_locked r Source path n).0 ≢ nil_pointer)
        × ((watch_locked r Source path v n).0 ≢ nil_pointer)
  unfolding copy_snapshot get_locked watch_locked
  never_nil_pointer read now others m n path v sound went steps =
      let (s, at) =
        Steps-HasSnapshot steps (ensure_loaded-HasSnapshot read now others m sound went) in
      (λ bad. ground arith, λ bad. get_locked-found r Source path n s at bad, λ bad. ground arith)
