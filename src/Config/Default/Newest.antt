-- ===== src/Config/Default/Newest.antt =====
-- Which snapshot the goroutine `run` of config/default.go leaves in the configuration.
use mathlib.Core.List.{append_assoc}
use mathlib.Core.Path.{subst}
use finokit.Base.{
  ℕ, ◌<◌, ◌≤◌, ◌^◌, pos, List, [], ◌∷◌, ◌++◌, some, true, false, Text, ok, err, Result-cases,
  Bool-cases, inl, inr, ◌⊎◌, ◌≡◌, refl, ap, ◌∙◌, All, All-append, arith,
}
use finokit.Config.Loader.Watchers.{Reader, snapshot_newer}
use finokit.Config.Loader.Memory.{Snapshot, gen_ver}
use finokit.Config.Default.{Config, snapshot_newer_version, is_stale, watched}
use finokit.Config.Default.Running.{Arrival, Round, came_in, IsStamped}

module _ (r : Reader) (Source : Type 0) where
  module _ (Edit : r.Values → r.Values → Type 0) where
    -- What others do keeps the snapshot, and changes the values, if at all, by an edit.
    abbrev pub IsEditing : (Config r Source → Config r Source) → Type 0
    IsEditing others =
        (c : Config r Source) (v : r.Values)
        → c.vals ≡ some v
        → ((others c).snap ≡ c.snap) × ((v' : r.Values) × ((others c).vals ≡ some v') × Edit v v')

    abbrev pub OnlyEdit : Round r Source → Type 0
    OnlyEdit round =
        All (λ (a : Arrival r Source). IsEditing a.others) (came_in r Source round.came)
        × IsEditing round.others

    -- A snapshot that cannot be parsed, or whose time is not later.
    abbrev pub IsPassed : ℕ → Snapshot r Source → Type 0
    IsPassed t u =
        ((e : Text) × (r.values u.change_set ≡ err e))
        ⊎ ((b : ℕ) × (u.version ≡ gen_ver (pos b)) × (b ≤ t))

    -- The configuration has the newest of some snapshots that can be parsed, and its values, with edits.
    pub record IsNewest (ss : List (Snapshot r Source)) (c : Config r Source) : Type 0 where
      pub snap : Snapshot r Source
      pub time : ℕ
      pub parsed : r.Values
      pub edited : r.Values
      pub before : List (Snapshot r Source)
      pub after : List (Snapshot r Source)
      pub among : ss ≡ before ++ snap ∷ after
      pub has : c.snap ≡ some snap
      pub stamped : snap.version ≡ gen_ver (pos time)
      pub bound : time < 2 ^ 63
      pub parses : r.values snap.change_set ≡ ok parsed
      pub keeps : c.vals ≡ some edited
      pub edits : Edit parsed edited
      pub newest : All (IsPassed time) ss

    module _ (edit_refl : (v : r.Values) → Edit v v)
        (edit_trans : (u v w : r.Values) → Edit u v → Edit v w → Edit u w) where
      pub others-IsNewest :
          (others : Config r Source → Config r Source) (ss : List (Snapshot r Source))
          (c : Config r Source)
          → IsEditing others
          → IsNewest ss c
          → IsNewest ss (others c)
      others-IsNewest others ss c editing h =
          let (same, (v', new, edit)) = editing c h.edited h.keeps in
          record {
            snap = h.snap;
            time = h.time;
            parsed = h.parsed;
            edited = v';
            before = h.before;
            after = h.after;
            among = h.among;
            has = same ∙ h.has;
            stamped = h.stamped;
            bound = h.bound;
            parses = h.parses;
            keeps = new;
            edits = edit_trans h.parsed h.edited v' h.edits edit;
            newest = h.newest;
          }

      module _
          (parse_int_lem : (n : ℕ)
            → n < 2 ^ 63
            → r.parse_int (gen_ver (pos n)) ≡ some (pos n)) where
        not-newer :
            (a b : ℕ)
            → a < 2 ^ 63
            → b < 2 ^ 63
            → snapshot_newer r (gen_ver (pos b)) (gen_ver (pos a)) ≡ false
            → b ≤ a
        unfolding snapshot_newer
        not-newer a b la lb h = ground (arith, parse_int_lem a la, parse_int_lem b lb)

        is-newer :
            (a b : ℕ)
            → a < 2 ^ 63
            → b < 2 ^ 63
            → snapshot_newer r (gen_ver (pos b)) (gen_ver (pos a)) ≡ true
            → a < b
        unfolding snapshot_newer
        is-newer a b la lb h = ground (arith, parse_int_lem a la, parse_int_lem b lb)

        IsPassed-later :
            (a b : ℕ) (ss : List (Snapshot r Source))
            → a ≤ b
            → All (IsPassed a) ss
            → All (IsPassed b) ss
        IsPassed-later a b [] le all = tt
        IsPassed-later a b (s ∷ ss) le (inl bad, all) = (inl bad, IsPassed-later a b ss le all)
        IsPassed-later a b (s ∷ ss) le (inr (n, at, less), all) =
            (inr (n, at, omega arith), IsPassed-later a b ss le all)

        -- One that is passed over.
        kept :
            (u : Snapshot r Source) (ss : List (Snapshot r Source)) (c : Config r Source)
            (h : IsNewest ss c)
            → IsPassed h.time u
            → IsNewest (ss ++ u ∷ []) c
        kept u ss c h passed = record {
          snap = h.snap;
          time = h.time;
          parsed = h.parsed;
          edited = h.edited;
          before = h.before;
          after = h.after ++ u ∷ [];
          among = ap (λ l. l ++ u ∷ []) h.among ∙ append_assoc h.before (h.snap ∷ h.after) (u ∷ []);
          has = h.has;
          stamped = h.stamped;
          bound = h.bound;
          parses = h.parses;
          keeps = h.keeps;
          edits = h.edits;
          newest = All-append (IsPassed h.time) ss (u ∷ []) h.newest (passed, tt);
        }

        pub watched-IsNewest :
            (u : Snapshot r Source) (ss : List (Snapshot r Source)) (c : Config r Source)
            → IsStamped r Source u
            → IsNewest ss c
            → IsNewest (ss ++ u ∷ []) (watched r Source u c)
        unfolding watched is_stale snapshot_newer_version
        watched-IsNewest u ss c (b, at, lb) h =
            elim (Bool-cases (snapshot_newer r (gen_ver (pos b)) (gen_ver (pos h.time)))) [
              | inr older ↦
                  subst (IsNewest (ss ++ u ∷ [])) {x = c} (ground (arith, h.has, h.stamped))
                    (kept u ss c h (inr (b, at, not-newer h.time b h.bound lb older)))
              | inl newer ↦ elim (Result-cases (r.values u.change_set)) [
                | inr (e, bad) ↦
                    subst (IsNewest (ss ++ u ∷ [])) {x = c} (ground (arith, h.has, h.stamped))
                      (kept u ss c h (inl (e, bad)))
                | inl (vals, good) ↦
                    let later = is-newer h.time b h.bound lb newer in
                    let now : IsNewest (ss ++ u ∷ [])
                        (record c { vals = some vals; snap = some u }) =
                      record {
                        snap = u;
                        time = b;
                        parsed = vals;
                        edited = vals;
                        before = ss;
                        after = [];
                        among = refl;
                        has = refl;
                        stamped = at;
                        bound = lb;
                        parses = good;
                        keeps = refl;
                        edits = edit_refl vals;
                        newest =
                            All-append (IsPassed b) ss (u ∷ [])
                              (IsPassed-later h.time b ss (omega arith) h.newest)
                              (inr (b, at, omega arith), tt);
                      } in
                    subst (IsNewest (ss ++ u ∷ [])) (ground (arith, h.has, h.stamped)) now
              ]
            ]
