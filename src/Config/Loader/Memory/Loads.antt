-- ===== src/Config/Loader/Memory/Loads.antt =====
-- What `Load` leaves in the loader.
use mathlib.Core.Path.{subst}
use mathlib.Core.List.{append-nil, append_assoc}
use finokit.Base.{
  List, [], ◌∷◌, ◌++◌, length, Option, none, some, Text, if◌then◌else◌, ℤ, Result, ok, err, ◌≡◌,
  ◌≢◌, refl, sym, ap, ◌∙◌, inl, inr, arith, Option-cases, Result-cases, All,
}
use finokit.Config.Loader.Watchers.{Reader}
use finokit.Config.Loader.Memory.{
  gen_ver, Memory, install, update, rebuild, reload, load_each, load, if_any,
}

module _ (r : Reader) (Source : Type 0) where
  -- The sources that can be read, with what they return.
  unfoldable pub readable :
      (Source → Result Text r.ChangeSet) → List Source → List Source × List (Option r.ChangeSet)
  readable read [] = ([], [])
  readable read (s ∷ ss) =
      let (sources, sets) = readable read ss in
      elim (read s) [ ok ch ↦ (s ∷ sources, some ch ∷ sets) | err e ↦ (sources, sets) ]

  abbrev pub IsReadable : (Source → Result Text r.ChangeSet) → Source → Type 0
  IsReadable read s = (ch : r.ChangeSet) × (read s ≡ ok ch)

  load_each-readable :
      (read : Source → Result Text r.ChangeSet) (ss : List Source) (m : Memory r Source)
      → ((load_each r Source read ss m).1.sources ≡ m.sources ++ (readable read ss).0)
        × ((load_each r Source read ss m).1.sets ≡ m.sets ++ (readable read ss).1)
  unfolding load_each readable
  load_each-readable read [] m = (sym (append-nil m.sources), sym (append-nil m.sets))
  load_each-readable read (s ∷ ss) m = elim (Result-cases (read s)) [
    | inr (e, bad) ↦ let (a, b) = load_each-readable read ss m in (ground arith, ground arith)
    | inl (ch, good) ↦
        let m' : Memory r Source = record m {
          sources = m.sources ++ s ∷ [];
          sets = m.sets ++ some ch ∷ [];
          watched = if m.watcher_disabled then m.watched else m.watched ++ (length m.sets, s) ∷ [];
        } in
        let (a, b) = load_each-readable read ss m' in
        (
          ground (arith, append_assoc m.sources (s ∷ []) (readable read ss).0),
          ground (arith, append_assoc m.sets (some ch ∷ []) (readable read ss).1),
        )
  ]

  load_each-All :
      (read : Source → Result Text r.ChangeSet) (ss : List Source) (m : Memory r Source)
      → (load_each r Source read ss m).0 ≡ []
      → All (IsReadable read) ss
  unfolding load_each
  load_each-All read [] m none_bad = tt
  load_each-All read (s ∷ ss) m none_bad = elim (Result-cases (read s)) [
    | inr (e, bad) ↦ absurd (ground arith)
    | inl (ch, good) ↦
        let m' : Memory r Source = record m {
          sources = m.sources ++ s ∷ [];
          sets = m.sets ++ some ch ∷ [];
          watched = if m.watcher_disabled then m.watched else m.watched ++ (length m.sets, s) ∷ [];
        } in
        ((ch, good), load_each-All read ss m' (ground arith))
  ]

  pub update-keeps :
      (m : Memory r Source)
      → ((update r Source m).vals ≡ m.vals)
        × ((update r Source m).snap ≡ m.snap)
        × ((update r Source m).sets ≡ m.sets)
        × ((update r Source m).sources ≡ m.sources)
  unfolding update
  update-keeps m = elim (Option-cases m.vals) [
    | inl missing ↦ (ground arith, ground arith, ground arith, ground arith)
    | inr (vals, has) ↦ elim (Option-cases m.snap) [
      | inl lost ↦ (ground arith, ground arith, ground arith, ground arith)
      | inr (s, at) ↦ (ground arith, ground arith, ground arith, ground arith)
    ]
  ]

  pub rebuild-keeps :
      (sets : List (Option r.ChangeSet)) (now : ℤ) (m : Memory r Source)
      → ((rebuild r Source sets now m).1.sets ≡ m.sets)
        × ((rebuild r Source sets now m).1.sources ≡ m.sources)
  unfolding rebuild install
  rebuild-keeps sets now m = elim (Result-cases (r.merge sets)) [
    | inr (e, bad) ↦ (ground arith, ground arith)
    | inl (cs, merged) ↦ elim (Result-cases (r.values cs)) [
      | inr (e, bad) ↦ (ground arith, ground arith)
      | inl (vals, parsed) ↦
          let kept = update-keeps (install r Source (some vals) cs now m) in
          (ground arith, ground arith)
    ]
  ]

  -- The values and the snapshot are those of the merged sets, at a time.
  abbrev pub IsBuilt : List (Option r.ChangeSet) → ℤ → Memory r Source → Type 0
  IsBuilt sets now m =
      (cs : r.ChangeSet) × (vals : r.Values) × (r.merge sets ≡ ok cs)
      × (r.values cs ≡ ok vals)
      × (m.vals ≡ some vals)
      × (m.snap ≡ some (record { change_set = cs; version = gen_ver now }))

  pub rebuild-IsBuilt :
      (sets : List (Option r.ChangeSet)) (now : ℤ) (m : Memory r Source)
      → (rebuild r Source sets now m).0 ≡ none
      → IsBuilt sets now (rebuild r Source sets now m).1
  unfolding rebuild install
  rebuild-IsBuilt sets now m went = elim (Result-cases (r.merge sets)) [
    | inr (e, bad) ↦ absurd (ground arith)
    | inl (cs, merged) ↦ elim (Result-cases (r.values cs)) [
      | inr (e, bad) ↦ absurd (ground arith)
      | inl (vals, parsed) ↦
          let kept = update-keeps (install r Source (some vals) cs now m) in
          (cs, vals, merged, parsed, ground arith, ground arith)
    ]
  ]

  -- `Load` adds the sources that can be read, in order, each with the change set that it returned,
  -- also when it returns an error.
  pub load_sources :
      (read : Source → Result Text r.ChangeSet) (now : ℤ) (ss : List Source) (m : Memory r Source)
      → ((load r Source read now ss m).1.sources ≡ m.sources ++ (readable read ss).0)
        × ((load r Source read now ss m).1.sets ≡ m.sets ++ (readable read ss).1)
  unfolding load reload
  load_sources read now ss m =
      let m₁ = (load_each r Source read ss m).1 in
      let kept = rebuild-keeps m₁.sets now m₁ in
      let added = load_each-readable read ss m in (ground arith, ground arith)

  ends_apart : (es : List Text) (e : Text) → es ++ e ∷ [] ≢ []
  ends_apart [] e h = cc
  ends_apart (f ∷ es) e h = cc

  if_any_lem : (es : List Text) → if_any es ≡ none → es ≡ []
  if_any_lem [] h = refl
  if_any_lem (e ∷ es) h = cc

  -- When `Load` returns nil, every source that it was given could be read, and the values and the
  -- snapshot are those of all the change sets merged, those it held before and then the new ones, in
  -- the order in which they were loaded.
  pub load_succeeds :
      (read : Source → Result Text r.ChangeSet) (now : ℤ) (ss : List Source) (m : Memory r Source)
      → (load r Source read now ss m).0 ≡ none
      → All (IsReadable read) ss
        × IsBuilt (m.sets ++ (readable read ss).1) now (load r Source read now ss m).1
  unfolding load reload
  load_succeeds read now ss m went =
      let m₁ = (load_each r Source read ss m).1 in
      let errors = (load_each r Source read ss m).0 in
      elim (Option-cases (rebuild r Source m₁.sets now m₁).0) [
        | inr (e, bad) ↦ absurd (ends_apart errors e (if_any_lem (errors ++ e ∷ []) (ground arith)))
        | inl rebuilt ↦ (
          load_each-All read ss m
              (sym (append-nil errors) ∙ if_any_lem (errors ++ []) (ground arith)),
          subst (λ sets. IsBuilt sets now (rebuild r Source m₁.sets now m₁).1)
              (load_each-readable read ss m).1 (rebuild-IsBuilt m₁.sets now m₁ rebuilt),
        )
      ]

  load_each_clean :
      (read : Source → Result Text r.ChangeSet) (ss : List Source) (m : Memory r Source)
      → All (IsReadable read) ss
      → (load_each r Source read ss m).0 ≡ []
  unfolding load_each
  load_each_clean read [] m all = refl
  load_each_clean read (s ∷ ss) m ((ch, good), all) =
      let m' : Memory r Source = record m {
        sources = m.sources ++ s ∷ [];
        sets = m.sets ++ some ch ∷ [];
        watched = if m.watcher_disabled then m.watched else m.watched ++ (length m.sets, s) ∷ [];
      } in
      let rest = load_each_clean read ss m' all in ground (arith, good, rest)

  rebuild_succeeds :
      (sets : List (Option r.ChangeSet)) (now : ℤ) (m : Memory r Source) (cs : r.ChangeSet)
      (vals : r.Values)
      → r.merge sets ≡ ok cs
      → r.values cs ≡ ok vals
      → (rebuild r Source sets now m).0 ≡ none
  unfolding rebuild
  rebuild_succeeds sets now m cs vals merged parsed = ground arith

  -- `Load` returns nil when every source can be read, and all the change sets can be merged and parsed.
  pub load_completes :
      (read : Source → Result Text r.ChangeSet) (now : ℤ) (ss : List Source) (m : Memory r Source)
      (cs : r.ChangeSet) (vals : r.Values)
      → All (IsReadable read) ss
      → r.merge (m.sets ++ (readable read ss).1) ≡ ok cs
      → r.values cs ≡ ok vals
      → (load r Source read now ss m).0 ≡ none
  unfolding load reload
  load_completes read now ss m cs vals all merged parsed =
      let m₁ = (load_each r Source read ss m).1 in
      let added = load_each-readable read ss m in
      let merged' : r.merge m₁.sets ≡ ok cs = ap r.merge added.1 ∙ merged in
      let clean = load_each_clean read ss m all in
      let built = rebuild_succeeds m₁.sets now m₁ cs vals merged' parsed in
      ground (arith, clean, built)
