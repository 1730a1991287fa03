-- ===== src/Config/Default/Watching.antt =====
-- `Watch` of config/default.go: a watcher that asks the loader's watcher (config/loader/memory/memory.go)
-- for changes.
use finokit.Base.{
  ℕ, List, [], ◌∷◌, Option, none, some, true, false, Text, text_eq, text_eq_refl, text_eq-eq,
  Bool-cases, inl, inr, pos, Result, ok, ◌>>=◌, ◌≡◌, refl, ap, ◌∙◌, arith,
}
use finokit.Config.Loader.Watchers.{
  Reader, Watcher, snapshot_newer, value_at, offer, push, receive, next,
}
use finokit.Config.Loader.Watchers.Versions.{Event, tested, pushed, taken, holding, returned}
use finokit.Config.Loader.Memory.{gen_ver}
use finokit.Config.Default.{Config, Edits, get, watcher_next}

module _ (r : Reader) (Source : Type 0) where
  -- The configuration's `watcher`; a value of none is `newValue()`.
  pub record PathWatcher : Type 0 where
    pub loader_watcher : Watcher r
    pub value : Option r.Value
    pub path : List Text

  -- `Watch`, with what the loader's `Watch` returned.
  unfoldable pub watch :
      List Text → Result Text (Watcher r) → Config r Source → Result Text PathWatcher
  unfolding get
  watch path loader_watcher c = do
    value ← get r Source path c
    w ← loader_watcher
    ok (record { loader_watcher = w; value = value; path = path })

  module _ (e : Edits r) (made : Text → r.ChangeSet) where
    -- What the calls of `Next` return, for what the loader's watcher returned to them: the bytes of a
    -- value, of which it makes a change set, and a version.
    unfoldable pub next_results : r.Value → List (Text × Text) → List (Result Text (Option r.Value))
    unfolding watcher_next
    next_results value [] = []
    next_results value ((bytes, version) ∷ came) =
        let rest = next_results value came in
        elim (watcher_next r Source e value
          (record { change_set = made bytes; version = version })) [
            | none ↦ rest
            | some result ↦ result ∷ rest
          ]

  -- An update that is sent and taken at once.
  abbrev pub delivered : r.Values → ℕ → List (Event r) → List (Event r)
  delivered vals now es = tested vals now ∷ pushed 0 ∷ taken ∷ es

  offers :
      (vals : r.Values) (version : Text) (w : Watcher r) (v : r.Value)
      → snapshot_newer r version w.version ≡ true
      → value_at r vals w.path ≡ some v
      → offer r vals version w ≡ some (record { value = some v; version = version })
  unfolding offer
  offers vals version w v newer found = ground arith

  takes :
      (version : Text) (w : Watcher r) (v : r.Value)
      → w.updates ≡ none
      → snapshot_newer r version w.version ≡ true
      → text_eq (r.bytes w.value) (r.bytes v) ≡ false
      → next r (push r (record { value = some v; version = version }) w)
        ≡ (some (r.bytes v, version), record w { updates = none; version = version; value = v })
  unfolding next push receive
  takes version w v waits newer changed = ground arith

  returned-taken :
      (es : List (Event r)) (w : Watcher r) (p : Text × Text) (w' : Watcher r)
      → next r w ≡ (some p, w')
      → returned r (taken ∷ es) [] w ≡ p ∷ returned r es [] w'
  unfolding returned
  returned-taken es w p w' h = ground (arith, h)

  returned-delivered :
      (vals : r.Values) (now : ℕ) (es : List (Event r)) (w : Watcher r) (v : r.Value)
      → w.updates ≡ none
      → snapshot_newer r (gen_ver (pos now)) w.version ≡ true
      → value_at r vals w.path ≡ some v
      → text_eq (r.bytes w.value) (r.bytes v) ≡ false
      → returned r (delivered vals now es) [] w
        ≡ (r.bytes v, gen_ver (pos now))
          ∷ returned r es [] (record w { updates = none; version = gen_ver (pos now); value = v })
  unfolding returned
  returned-delivered vals now es w v waits newer found changed =
      ap (λ o. returned r (pushed 0 ∷ taken ∷ es) (holding r o []) w)
        (offers vals (gen_ver (pos now)) w v newer found)
      ∙ returned-taken es (push r (record { value = some v; version = gen_ver (pos now) }) w)
          (r.bytes v, gen_ver (pos now))
          (record w { updates = none; version = gen_ver (pos now); value = v })
          (takes (gen_ver (pos now)) w v waits newer changed)

  reports_both :
      (first back : r.Values) (t₁ t₂ : ℕ) (w : Watcher r) (v₁ v₂ : r.Value)
      → w.updates ≡ none
      → snapshot_newer r (gen_ver (pos t₁)) w.version ≡ true
      → snapshot_newer r (gen_ver (pos t₂)) (gen_ver (pos t₁)) ≡ true
      → value_at r first w.path ≡ some v₁
      → value_at r back w.path ≡ some v₂
      → text_eq (r.bytes w.value) (r.bytes v₁) ≡ false
      → text_eq (r.bytes v₁) (r.bytes v₂) ≡ false
      → returned r (delivered first t₁ (delivered back t₂ [])) [] w
        ≡ (r.bytes v₁, gen_ver (pos t₁)) ∷ (r.bytes v₂, gen_ver (pos t₂)) ∷ []
  unfolding returned
  reports_both first back t₁ t₂ w v₁ v₂ waits newer later found found' changed changed' =
      let after : Watcher r = record w { updates = none; version = gen_ver (pos t₁); value = v₁ } in
      returned-delivered first t₁ (delivered back t₂ []) w v₁ waits newer found changed
      ∙ ap ((r.bytes v₁, gen_ver (pos t₁)) ∷◌)
          (returned-delivered back t₂ [] after v₂ refl later found' changed')

  module _ (e : Edits r) (made : Text → r.ChangeSet)
      (keeps : (t : Text) → e.data_of (made t) ≡ t) where
    skips_its_own :
        (value : r.Value) (version : Text) (came : List (Text × Text))
        → next_results e made value ((r.bytes value, version) ∷ came)
          ≡ next_results e made value came
    unfolding next_results watcher_next
    skips_its_own value version came =
        ground (arith, keeps (r.bytes value), text_eq_refl (r.bytes value))

    next_results-cons :
        (value : r.Value) (p : Text × Text) (came came' : List (Text × Text))
        → next_results e made value came ≡ next_results e made value came'
        → next_results e made value (p ∷ came) ≡ next_results e made value (p ∷ came')
    unfolding next_results
    next_results-cons value (bytes, version) came came' same = ground (arith, same)

    returns_other :
        (value : r.Value) (bytes version : Text) (vals : r.Values)
        → text_eq (r.bytes value) bytes ≡ false
        → r.values (made bytes) ≡ ok vals
        → next_results e made value ((bytes, version) ∷ []) ≡ r.get vals [] ∷ []
    unfolding next_results watcher_next
    returns_other value bytes version vals changed parses =
        ground (arith, keeps bytes, changed, parses)

    -- Say a value changes from the one that the watcher was made with to another, and a call of `Next`
    -- takes that; then it changes back; and the change set of the first bytes can be parsed. The loader's
    -- watcher reports both changes, each with its version, but `Next` of the configuration's watcher
    -- returns once, the value of the first change: it passes over the second.
    pub change_back_is_missed :
        (first back : r.Values) (t₁ t₂ : ℕ) (w : Watcher r) (v₁ v₂ : r.Value) (vals : r.Values)
        → w.updates ≡ none
        → snapshot_newer r (gen_ver (pos t₁)) w.version ≡ true
        → snapshot_newer r (gen_ver (pos t₂)) (gen_ver (pos t₁)) ≡ true
        → value_at r first w.path ≡ some v₁
        → value_at r back w.path ≡ some v₂
        → text_eq (r.bytes w.value) (r.bytes v₁) ≡ false
        → r.bytes v₂ ≡ r.bytes w.value
        → r.values (made (r.bytes v₁)) ≡ ok vals
        → let reported = returned r (delivered first t₁ (delivered back t₂ [])) [] w in
          (reported ≡ (r.bytes v₁, gen_ver (pos t₁)) ∷ (r.bytes v₂, gen_ver (pos t₂)) ∷ [])
          × (next_results e made w.value reported ≡ r.get vals [] ∷ [])
    change_back_is_missed first back t₁ t₂ w v₁ v₂ vals waits newer later found found' changed same
          parses =
        let changed' : text_eq (r.bytes v₁) (r.bytes v₂) ≡ false =
          elim (Bool-cases (text_eq (r.bytes v₁) (r.bytes v₂))) [
            | inr differ ↦ differ
            | inl equal ↦ absurd (
                ground (
                  arith,
                  text_eq-eq (r.bytes v₁) (r.bytes v₂) equal,
                  text_eq_refl (r.bytes w.value),
                ))
          ] in
        let reported =
          reports_both first back t₁ t₂ w v₁ v₂ waits newer later found found' changed changed' in
        (
          reported,
          ap (next_results e made w.value) reported
              ∙ next_results-cons w.value (r.bytes v₁, gen_ver (pos t₁))
                  ((r.bytes v₂, gen_ver (pos t₂)) ∷ []) []
                  (ap (λ b. next_results e made w.value ((b, gen_ver (pos t₂)) ∷ [])) same
                    ∙ skips_its_own w.value (gen_ver (pos t₂)) [])
              ∙ returns_other w.value (r.bytes v₁) (gen_ver (pos t₁)) vals changed parses,
        )
