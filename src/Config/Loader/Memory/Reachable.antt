-- ===== src/Config/Loader/Memory/Reachable.antt =====
-- A loader is sound in every state that its steps reach.
use mathlib.Core.Path.{subst}
use mathlib.Core.List.{append_assoc}
use finokit.Base.{
  ℕ, suc, List, [], ◌∷◌, ◌++◌, map, some, Bool, true, false, length, length-append, All, Text, ℤ,
  Result, ok, ◌≡◌, refl, arith, inl, inr, Result-cases,
}
use finokit.Config.Loader.Watchers.{Reader}
use finokit.Config.Loader.Memory.{Memory, load_one, load_each, load, reload}
use finokit.Config.Loader.Memory.Access.{close, new_loader, indices_from}
use finokit.Config.Loader.Memory.Steps.{
  At, Step, appends, reloads, syncs, changes, gets, watches, watchers_move, closes, Steps, here,
  there, Paired, IsSound,
}
use finokit.Config.Loader.Memory.Keeps.{
  sync-IsSound, source_changed-IsSound, load_one-IsSound, reload-IsSound, get_locked-IsSound,
  watch_locked-IsSound,
}

At-middle :
    {A : Type 0} (s : A) (before after : List A) → At (length before) s (before ++ s ∷ after)
At-middle s [] after = refl
At-middle s (t ∷ before) after = At-middle s before after

module _ (r : Reader) (Source : Type 0) (From : Source → r.ChangeSet → Type 0) where
  indices-At :
      (before ss : List Source)
      → All
          (λ (p : ℕ × Source). At p.0 p.1 (before ++ ss))
          (indices_from r Source (length before) ss)
  indices-At before [] = tt
  indices-At before (s ∷ ss) = (
    At-middle s before ss,
    let rest = indices-At (before ++ s ∷ []) ss in
        let longer : length (before ++ s ∷ []) ≡ suc (length before) =
          ground (arith, length-append before (s ∷ [])) in
        subst
          (λ n.
            All (λ (p : ℕ × Source). At p.0 p.1 (before ++ s ∷ ss)) (indices_from r Source n ss))
          longer
          (subst
            (λ l.
              All (λ (p : ℕ × Source). At p.0 p.1 l)
                (indices_from r Source (length (before ++ s ∷ [])) ss))
            (append_assoc before (s ∷ []) ss) rest),
  )

  named-Paired :
      (named : Source → r.ChangeSet) (names : (s : Source) → From s (named s)) (ss : List Source)
      → Paired r Source From ss (map (λ s. some (named s)) ss)
  named-Paired named names [] = tt
  named-Paired named names (s ∷ ss) = (names s, named-Paired named names ss)

  pub new_loader-IsSound :
      (named : Source → r.ChangeSet) (names : (s : Source) → From s (named s)) (disabled : Bool)
      (ss : List Source)
      → IsSound r Source From (new_loader r Source named disabled ss)
  unfolding new_loader
  new_loader-IsSound named names true ss = record {
    paired = named-Paired named names ss;
    indexed = tt;
    consistent = tt;
  }
  new_loader-IsSound named names false ss = record {
    paired = named-Paired named names ss;
    indexed = indices-At [] ss;
    consistent = tt;
  }

  pub Step-IsSound :
      {m n : Memory r Source}
      → Step r Source From m n
      → IsSound r Source From m
      → IsSound r Source From n
  unfolding close
  Step-IsSound (appends s ch m from) h = load_one-IsSound r Source From s ch m from h
  Step-IsSound (reloads now m) h = reload-IsSound r Source From now m h
  Step-IsSound (syncs read now m) h = sync-IsSound r Source From read now m h
  Step-IsSound (changes idx s before after cs now m given from) h =
      source_changed-IsSound r Source From idx s before after cs now m given from h
  Step-IsSound (gets path m) h = get_locked-IsSound r Source From path m h
  Step-IsSound (watches path v m) h = watch_locked-IsSound r Source From path v m h
  Step-IsSound (watchers_move ws m) h = record {
    paired = h.paired;
    indexed = h.indexed;
    consistent = h.consistent;
  }
  Step-IsSound (closes m) h = record {
    paired = h.paired;
    indexed = h.indexed;
    consistent = h.consistent;
  }

  pub Steps-IsSound :
      {m n : Memory r Source}
      → Steps r Source From m n
      → IsSound r Source From m
      → IsSound r Source From n
  Steps-IsSound (here m) h = h
  Steps-IsSound (there s rest) h = Steps-IsSound rest (Step-IsSound s h)

  load_each-Steps :
      (read : Source → Result Text r.ChangeSet)
      (reads : (s : Source) (ch : r.ChangeSet) → read s ≡ ok ch → From s ch) (ss : List Source)
      (m n : Memory r Source)
      → Steps r Source From (load_each r Source read ss m).1 n
      → Steps r Source From m n
  unfolding load_each
  load_each-Steps read reads [] m n rest = rest
  load_each-Steps read reads (s ∷ ss) m n rest = elim (Result-cases (read s)) [
    | inr (e, bad) ↦
        load_each-Steps read reads ss m n (subst (λ k. Steps r Source From k n) (ground arith) rest)
    | inl (ch, good) ↦ there (appends s ch m (reads s ch good)) (
        load_each-Steps read reads ss (load_one r Source s ch m) n
          (subst (λ k. Steps r Source From k n) (ground arith) rest))
  ]

  -- `Load` on its own is such steps: one for each source that can be read, and the reloading.
  pub load-Steps :
      (read : Source → Result Text r.ChangeSet) (now : ℤ) (ss : List Source) (m : Memory r Source)
      → ((s : Source) (ch : r.ChangeSet) → read s ≡ ok ch → From s ch)
      → Steps r Source From m (load r Source read now ss m).1
  unfolding load
  load-Steps read now ss m reads =
      let m₁ = (load_each r Source read ss m).1 in
      load_each-Steps read reads ss m (load r Source read now ss m).1
        (there (reloads now m₁) (here (reload r Source now m₁).1))

  -- Of a relation between sources and change sets that holds of what a source returns and of the change
  -- set that it starts with: after any interleaving of the loader's locked parts from a new loader, in
  -- which `Load` takes the lock once for each source that it read and once to reload, and goroutines give
  -- change sets of their sources, the change sets stand in the order of the sources and each is related to
  -- its source, every goroutine that watches a source has that source's index, and the values, where there
  -- are any, are parsed from the change set of the snapshot.
  pub reachable-IsSound :
      (named : Source → r.ChangeSet) (names : (s : Source) → From s (named s)) (disabled : Bool)
      (ss : List Source) (m : Memory r Source)
      → Steps r Source From (new_loader r Source named disabled ss) m
      → IsSound r Source From m
  reachable-IsSound named names disabled ss m steps =
      Steps-IsSound steps (new_loader-IsSound named names disabled ss)
