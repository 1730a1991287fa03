-- ===== src/Config/Default/Follows.antt =====
-- The goroutine `run` of config/default.go follows the loader's watcher.
use mathlib.Core.List.{append-nil, append_assoc}
use mathlib.Core.Path.{subst}
use finokit.Base.{
  ℕ, ◌<◌, ◌^◌, pos, List, [], ◌∷◌, ◌++◌, Option, none, some, true, false, ok, Option-cases,
  Result-cases, inl, inr, ◌≡◌, refl, ap, sym, ◌∙◌, All, arith,
}
use finokit.Config.Loader.Watchers.{Reader}
use finokit.Config.Loader.Memory.{Snapshot, gen_ver}
use finokit.Config.Default.{Config, init, take_snapshot, watched}
use finokit.Config.Default.Running.{
  Arrival, Round, watch_loop, run, listed, present, came_in, heard, IsOpen, IsStamped,
}
use finokit.Config.Default.Newest.{IsEditing, OnlyEdit, IsNewest, watched-IsNewest, others-IsNewest}

module _ (r : Reader) (Source : Type 0) (Edit : r.Values → r.Values → Type 0)
    (edit_refl : (v : r.Values) → Edit v v)
    (edit_trans : (u v w : r.Values) → Edit u v → Edit v w → Edit u w)
    (parses : (n : ℕ) → n < 2 ^ 63 → r.parse_int (gen_ver (pos n)) ≡ some (pos n)) where
  listed-IsNewest :
      (o : Option (Snapshot r Source)) (ss : List (Snapshot r Source)) (c : Config r Source)
      (came : List (Arrival r Source))
      → All (IsStamped r Source) (listed r Source o ++ present r Source came)
      → IsNewest r Source Edit ss c
      → ((ss' : List (Snapshot r Source)) (c' : Config r Source)
          → All (IsStamped r Source) (present r Source came)
          → IsNewest r Source Edit ss' c'
          → IsNewest r Source Edit (ss' ++ present r Source came) (watch_loop r Source came c'))
      → IsNewest r Source Edit (ss ++ (listed r Source o ++ present r Source came)) (elim o [
        | none ↦ watch_loop r Source came c
        | some u ↦ watch_loop r Source came (watched r Source u c)
      ])
  listed-IsNewest none ss c came stamped h rest = rest ss c stamped h
  listed-IsNewest (some u) ss c came (at, stamped) h rest =
      subst (λ l. IsNewest r Source Edit l (watch_loop r Source came (watched r Source u c)))
        (append_assoc ss (u ∷ []) (present r Source came))
        (rest (ss ++ u ∷ []) (watched r Source u c) stamped
          (watched-IsNewest r Source Edit edit_refl edit_trans parses u ss c at h))

  watch_loop-IsNewest :
      (came : List (Arrival r Source)) (ss : List (Snapshot r Source)) (c : Config r Source)
      → All (λ (a : Arrival r Source). IsEditing r Source Edit a.others) came
      → All (IsStamped r Source) (present r Source came)
      → IsNewest r Source Edit ss c
      → IsNewest r Source Edit (ss ++ present r Source came) (watch_loop r Source came c)
  unfolding watch_loop
  watch_loop-IsNewest [] ss c editing stamped h =
      subst (λ l. IsNewest r Source Edit l c) (sym (append-nil ss)) h
  watch_loop-IsNewest (a ∷ came) ss c (edit, editing) stamped h =
      listed-IsNewest a.snapshot ss (a.others c) came stamped
        (others-IsNewest r Source Edit edit_refl edit_trans a.others ss c edit h)
        (λ ss' c' stamped' h'. watch_loop-IsNewest came ss' c' editing stamped' h')

  run_after :
      (rounds rest : List (Round r Source)) (c : Config r Source)
      → All (IsOpen r Source) rounds
      → run r Source (rounds ++ rest) c ≡ run r Source rest (run r Source rounds c).0
  unfolding run
  run_after [] rest c open_ = refl
  run_after (round ∷ rounds) rest c (here, open_) = elim (Option-cases round.came) [
    | inl e ↦ let tail = run_after rounds rest (round.others c) open_ in rw (e) tail
    | inr (came, e) ↦
        let tail = run_after rounds rest (round.others (watch_loop r Source came c)) open_ in
        rw (e, here) tail
  ]

  IsStamped-parts :
      (ss ss' : List (Snapshot r Source))
      → All (IsStamped r Source) (ss ++ ss')
      → All (IsStamped r Source) ss × All (IsStamped r Source) ss'
  IsStamped-parts [] ss' h = (tt, h)
  IsStamped-parts (s ∷ ss) ss' (at, h) =
      let (left, right) = IsStamped-parts ss ss' h in ((at, left), right)

  run_open :
      (rounds : List (Round r Source)) (ss : List (Snapshot r Source)) (c : Config r Source)
      → All (OnlyEdit r Source Edit) rounds
      → All (IsOpen r Source) rounds
      → All (IsStamped r Source) (heard r Source rounds)
      → IsNewest r Source Edit ss c
      → ((run r Source rounds c).1 ≡ false)
        × IsNewest r Source Edit (ss ++ heard r Source rounds) (run r Source rounds c).0
  unfolding run
  run_open [] ss c editing open_ stamped h =
      (refl, subst (λ l. IsNewest r Source Edit l c) (sym (append-nil ss)) h)
  run_open (round ∷ rounds) ss c ((edits, edit), editing) (here, open_) stamped h =
      let (at, stamped') =
        IsStamped-parts (present r Source (came_in r Source round.came)) (heard r Source rounds)
          stamped in
      let seen = present r Source (came_in r Source round.came) in
      let in_loop = watch_loop-IsNewest (came_in r Source round.came) ss c edits at h in
      let after : Config r Source =
        round.others (watch_loop r Source (came_in r Source round.came) c) in
      let ended =
        others-IsNewest r Source Edit edit_refl edit_trans round.others (ss ++ seen)
          (watch_loop r Source (came_in r Source round.came) c) edit in_loop in
      let (runs, last) = run_open rounds (ss ++ seen) after editing open_ stamped' ended in
      let same : run r Source (round ∷ rounds) c ≡ run r Source rounds after =
        elim (Option-cases round.came) [
          | inl e ↦ rw (run, watch_loop, e) refl
          | inr (came, e) ↦ rw (run, e, here) refl
        ] in
      (
        ap (λ p. p.1) same ∙ runs,
        subst (λ l. IsNewest r Source Edit l (run r Source (round ∷ rounds) c).0)
            (append_assoc ss seen (heard r Source rounds))
            (subst (λ p. IsNewest r Source Edit ((ss ++ seen) ++ heard r Source rounds) p.0)
              (sym same) last),
      )

  init-IsNewest :
      (snap : Snapshot r Source) (t : ℕ)
      → (init r Source none (ok snap)).0 ≡ none
      → snap.version ≡ gen_ver (pos t)
      → t < 2 ^ 63
      → IsNewest r Source Edit (snap ∷ []) (init r Source none (ok snap)).1
  unfolding init take_snapshot
  init-IsNewest snap t went at lt = elim (Result-cases (r.values snap.change_set)) [
    | inr (e, bad) ↦ absurd (ground arith)
    | inl (vals, good) ↦ record {
      snap = snap;
      time = t;
      parsed = vals;
      edited = vals;
      before = [];
      after = [];
      among = refl;
      has = ground arith;
      stamped = at;
      bound = lt;
      parses = good;
      keeps = ground arith;
      edits = edit_refl vals;
      newest = (inr (t, at, omega arith), tt);
    }
  ]

  -- Where ParseInt reads back the decimal form of a 63-bit number, and `Edit` is a reflexive and transitive
  -- relation of values: a configuration that was made from a loader's snapshot without an error, with the
  -- version of a time, and rounds whose snapshots have versions of times, while others change the
  -- configuration by edits of its values alone (so no `Sync` and no `Load` of it). As long as `exit` is open
  -- the goroutine runs on, and the configuration has, of the first snapshot and those of the rounds, one that
  -- can be parsed, none that can be parsed being of a later time, and edits of the values parsed from it. In
  -- the next round that watches the loader and finds `exit` closed, this holds with the snapshots of that
  -- round too, and the goroutine ends, whatever would come later.
  pub run-IsNewest :
      (snap : Snapshot r Source) (t : ℕ) (rounds later : List (Round r Source))
      (came : List (Arrival r Source)) (others : Config r Source → Config r Source)
      → let closing : Round r Source = record {
        came = some came;
        others = others;
        closed = true;
      } in
        let c = (init r Source none (ok snap)).1 in
        let at_end = run r Source (rounds ++ closing ∷ later) c in
        (init r Source none (ok snap)).0 ≡ none
        → snap.version ≡ gen_ver (pos t)
        → t < 2 ^ 63
        → All (OnlyEdit r Source Edit) rounds
        → OnlyEdit r Source Edit closing
        → All (IsOpen r Source) rounds
        → All (IsStamped r Source) (heard r Source rounds)
        → All (IsStamped r Source) (present r Source came)
        → ((run r Source rounds c).1 ≡ false)
          × IsNewest r Source Edit (snap ∷ heard r Source rounds) (run r Source rounds c).0
          × (at_end.1 ≡ true)
          × IsNewest r Source Edit
              (snap ∷ (heard r Source rounds ++ present r Source came))
              at_end.0
  unfolding run
  run-IsNewest snap t rounds later came others went at lt editing (edits, edit) open_ stamped
        stamped' =
      let c = (init r Source none (ok snap)).1 in
      let closing : Round r Source = record { came = some came; others = others; closed = true } in
      let (runs, last) =
        run_open rounds (snap ∷ []) c editing open_ stamped (init-IsNewest snap t went at lt) in
      let before = (run r Source rounds c).0 in
      let ended =
        others-IsNewest r Source Edit edit_refl edit_trans others
          (snap ∷ (heard r Source rounds ++ present r Source came))
          (watch_loop r Source came before) edit
          (watch_loop-IsNewest came (snap ∷ heard r Source rounds) before edits stamped' last) in
      let same : run r Source (rounds ++ closing ∷ later) c
          ≡ (others (watch_loop r Source came before), true) =
        run_after rounds (closing ∷ later) c open_ in
      (
        runs,
        last,
        ap (λ p. p.1) same,
        subst
            (λ p.
              IsNewest r Source Edit (snap ∷ (heard r Source rounds ++ present r Source came)) p.0)
            (sym same) ended,
      )
