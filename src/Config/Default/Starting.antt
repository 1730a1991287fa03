-- ===== src/Config/Default/Starting.antt =====
-- `newConfig` of config/default.go with its options, config/options.go: a configuration over a loader, and
-- over the loader of config/loader/memory/memory.go, which it makes where none is given.
use finokit.Base.{
  List, [], ◌∷◌, ◌++◌, Option, none, some, Bool, true, false, not, Text, text, Result, ok, err, ◌≡◌,
  ℤ, All, ◌↔◌, arith, ok_injective, Option-cases, inl, inr, ap, sym, ◌∙◌,
}
use finokit.Config.Loader.Watchers.{Reader}
use finokit.Config.Loader.Memory.{Snapshot, Memory, load, gen_ver}
use finokit.Config.Loader.Memory.Access.{
  done, failed, nil_pointer, ensure_loaded, copy_snapshot, new_loader,
}
use finokit.Config.Loader.Memory.{loaded}
use finokit.Config.Loader.Memory.Loads.{readable, IsReadable, load_succeeds, load_completes}
use finokit.Config.Default.{Config, take_snapshot, init}

-- The options of a configuration, with loaders L, readers R and sources S.
pub record Options (L R S : Type 0) : Type 0 where
  pub loader : Option L
  pub reader : R
  pub source : List S
  pub watcher_disabled : Bool

-- What sets them: `WithLoader`, `WithSource`, `WithReader` and `WithWatcherDisabled`.
pub data Setting (L R S : Type 0) : Type 0 where
  with_loader : L → Setting L R S
  with_source : S → Setting L R S
  with_reader : R → Setting L R S
  with_watcher_disabled : Setting L R S

module _ {L R S : Type 0} where
  unfoldable pub apply : Setting L R S → Options L R S → Options L R S
  apply (with_loader l) o = record o { loader = some l }
  apply (with_source s) o = record o { source = o.source ++ s ∷ [] }
  apply (with_reader rd) o = record o { reader = rd }
  apply with_watcher_disabled o = record o { watcher_disabled = true }

  -- The start of `Init`: the options in order, then the default loader, made with the reader that they
  -- end with.
  unfoldable pub apply_all : List (Setting L R S) → Options L R S → Options L R S
  unfolding apply
  apply_all [] o = o
  apply_all (s ∷ ss) o = apply_all ss (apply s o)

  unfoldable pub loader_of : (R → Bool → L) → Options L R S → L
  loader_of make o = elim o.loader [ some l ↦ l | none ↦ make o.reader o.watcher_disabled ]

module _ (r : Reader) (Source : Type 0) where
  -- What `Init` calls of its loader.
  pub record Loads (L : Type 0) : Type 0 where
    pub load : List Source → L → Option Text × L
    pub snapshot : L → Result Text (Snapshot r Source) × L

  -- `newConfig`, once the options are set: the configuration, its loader, and whether `run` is started.
  unfoldable pub new_config :
      {L : Type 0} → Loads L → L → List Source → Bool → Result Text (Config r Source × L × Bool)
  unfolding init
  new_config ops l ss disabled =
      let (e, l₁) = ops.load ss l in
      let (snapshot, l₂) = ops.snapshot l₁ in
      let (e', c) = init r Source e snapshot in
      elim e' [ some x ↦ err x | none ↦ ok (c, l₂, not disabled) ]

  module _ (read : Source → Result Text r.ChangeSet) (now : ℤ) (joined : List Text → Text) where
    -- The loader's `Load` and `Snapshot`; a nil snapshot would end the program, and is an error here.
    abbrev pub memory_loads : Loads (Memory r Source)
    memory_loads = record {
      load = λ ss m.
          let (e, m') = load r Source read now ss m in
          (elim e [ none ↦ none | some es ↦ some (joined es) ], m');
      snapshot = λ m.
          let (e, m') = ensure_loaded r Source read now (λ l. l) m in
          let copy : Result Text (Snapshot r Source) = elim (copy_snapshot r Source m') [
            | done snap ↦ ok snap
            | failed x ↦ err x
            | nil_pointer ↦ err (text "nil pointer")
          ] in
          (elim e [ none ↦ copy | some es ↦ err (joined es) ], m');
    }

    -- A loader that has values and a snapshot gives a copy of it.
    snapshot-loaded :
        (m : Memory r Source) (vals : r.Values) (snap : Snapshot r Source)
        → m.vals ≡ some vals
        → m.snap ≡ some snap
        → memory_loads.snapshot m ≡ (ok snap, m)
    unfolding ensure_loaded copy_snapshot loaded
    snapshot-loaded m vals snap has at = ground arith

    load_fails :
        (m : Memory r Source) (ss : List Source) (disabled : Bool) (es : List Text)
        → (load r Source read now ss m).0 ≡ some es
        → new_config memory_loads m ss disabled ≡ err (joined es)
    unfolding new_config init take_snapshot
    load_fails m ss disabled es bad = ground arith

    load_went :
        (m : Memory r Source) (ss : List Source) (disabled : Bool) (cs : r.ChangeSet)
        (vals : r.Values)
        → (load r Source read now ss m).0 ≡ none
        → (load r Source read now ss m).1.vals ≡ some vals
        → (load r Source read now ss m).1.snap
          ≡ some (record { change_set = cs; version = gen_ver now })
        → r.values cs ≡ ok vals
        → new_config memory_loads m ss disabled
          ≡ ok (
            record {
              vals = some vals;
              snap = some (record { change_set = cs; version = gen_ver now });
              exited = false;
            },
            (load r Source read now ss m).1,
            not disabled,
          )
    unfolding new_config init take_snapshot
    load_went m ss disabled cs vals went has at parsed =
        let copied =
          snapshot-loaded (load r Source read now ss m).1 vals
            (record { change_set = cs; version = gen_ver now }) has at in
        ground (arith, copied)

    -- What a configuration on the default loader has, where its values are parsed from the change sets of
    -- all its sources.
    abbrev pub started : r.ChangeSet → r.Values → Config r Source
    started cs vals = record {
      vals = some vals;
      snap = some (record { change_set = cs; version = gen_ver now });
      exited = false;
    }

    -- Every source can be read, their change sets can be merged, in the order of the sources, what that
    -- gives can be parsed, and the configuration has those values; `run` is started unless watching is
    -- disabled.
    abbrev pub IsStarted : List Source → Bool → Config r Source → Bool → Type 0
    IsStarted ss disabled c running =
        All (IsReadable r Source read) ss
        × (running ≡ not disabled)
        × ((cs : r.ChangeSet) × (vals : r.Values) × (r.merge (readable r Source read ss).1 ≡ ok cs)
            × (r.values cs ≡ ok vals)
            × (c ≡ started cs vals))

    module _ (named : Source → r.ChangeSet) (ss : List Source) (disabled : Bool) where
      abbrev default_loader : Memory r Source
      default_loader = new_loader r Source named disabled []

      -- What `newConfig` gives on the default loader.
      abbrev pub starts : Result Text (Config r Source × Memory r Source × Bool)
      starts = new_config memory_loads default_loader ss disabled

      starts-IsStarted :
          (c : Config r Source) (m : Memory r Source) (running : Bool)
          → starts ≡ ok (c, m, running)
          → IsStarted ss disabled c running
      unfolding new_loader
      starts-IsStarted c m running went =
          elim (Option-cases (load r Source read now ss default_loader).0) [
            | inr (es, bad) ↦ absurd (ground (arith, load_fails default_loader ss disabled es bad))
            | inl fine ↦
                let (all, (cs, vals, merged, parsed, has, at)) =
                  load_succeeds r Source read now ss default_loader fine in
                let same =
                  ok_injective
                    (sym went ∙ load_went default_loader ss disabled cs vals fine has at parsed) in
                (all, ap (λ p. p.2) same, (cs, vals, merged, parsed, ap (λ p. p.0) same))
          ]

      IsStarted-starts :
          (c : Config r Source) (running : Bool)
          → IsStarted ss disabled c running
          → (m : Memory r Source) × (starts ≡ ok (c, m, running))
      unfolding new_loader
      IsStarted-starts c running (all, runs, (cs, vals, merged, parsed, e)) =
          let fine = load_completes r Source read now ss default_loader cs vals all merged parsed in
          let (all', (cs', vals', merged', parsed', has, at)) =
            load_succeeds r Source read now ss default_loader fine in
          let went = load_went default_loader ss disabled cs' vals' fine has at parsed' in
          let same : cs' ≡ cs = ok_injective (sym merged' ∙ merged) in
          let same' : vals' ≡ vals = ok_injective (sym parsed' ∙ ap r.values same ∙ parsed) in
          let settled : started cs' vals' ≡ c =
            ap (λ x. started x vals') same ∙ ap (λ v. started cs v) same' ∙ sym e in
          let loaded_in = (load r Source read now ss default_loader).1 in
          (
            loaded_in,
            went
                ∙ ap (λ x. ok (x, loaded_in, not disabled)) settled
                ∙ ap (λ b. ok (c, loaded_in, b)) (sym runs),
          )

      -- `newConfig` on the default loader returns a configuration just when every source can be read,
      -- their change sets can be merged, in the order of the sources, and what that gives can be parsed;
      -- the configuration then has those values, and `run` is started unless watching is disabled.
      pub new_config_iff :
          (c : Config r Source) (running : Bool)
          → ((m : Memory r Source) × (starts ≡ ok (c, m, running)))
            ↔ IsStarted ss disabled c running
      new_config_iff c running =
          (λ (m, went). starts-IsStarted c m running went, IsStarted-starts c running)
