-- ===== src/Config/Loader/Memory/Keeps.antt =====
-- Every method of the loader keeps it sound.
use mathlib.Core.Path.{subst}
use finokit.Base.{
  ℕ, zero, suc, List, [], ◌∷◌, ◌++◌, map, Option, none, some, false, Text, length, All, All-append,
  ℤ, Result, ok, ◌≡◌, refl, sym, ap, Bool-cases, inl, inr, arith, set, Option-cases, Result-cases,
}
use finokit.Config.Loader.Watchers.{Reader, Watcher, send}
use finokit.Config.Loader.Memory.{
  Memory, install, update, rebuild, reload, read_all, sync, source_changed, load_one,
}
use finokit.Config.Loader.Memory.Access.{get_locked, watch_locked}
use finokit.Config.Loader.Memory.Steps.{At, Paired, IsSound}

At-append : {A : Type 0} (i : ℕ) (s : A) (ss : List A) (ts : List A) → At i s ss → At i s (ss ++ ts)
At-append i s [] ts h = absurd h
At-append zero s (t ∷ ss) ts h = h
At-append (suc i) s (t ∷ ss) ts h = At-append i s ss ts h

At-last : {A : Type 0} (s : A) (ss : List A) → At (length ss) s (ss ++ s ∷ [])
At-last s [] = refl
At-last s (t ∷ ss) = At-last s ss

Ats-append :
    {A : Type 0} (ps : List (ℕ × A)) (ss ts : List A)
    → All (λ (p : ℕ × A). At p.0 p.1 ss) ps
    → All (λ (p : ℕ × A). At p.0 p.1 (ss ++ ts)) ps
Ats-append [] ss ts h = tt
Ats-append ((i, s) ∷ ps) ss ts (at, h) = (At-append i s ss ts at, Ats-append ps ss ts h)

All-at :
    {A : Type 0} (P : A → Type 0) (before : List A) (x : A) (after : List A)
    → All P (before ++ x ∷ after)
    → P x
All-at P [] x after (px, h) = px
All-at P (y ∷ before) x after (py, h) = All-at P before x after h

module _ (r : Reader) (Source : Type 0) (From : Source → r.ChangeSet → Type 0) where
  length-Paired :
      (ss : List Source) (os : List (Option r.ChangeSet))
      → Paired r Source From ss os
      → length os ≡ length ss
  length-Paired [] [] h = refl
  length-Paired [] (o ∷ os) h = absurd h
  length-Paired (s ∷ ss) [] h = absurd h
  length-Paired (s ∷ ss) (none ∷ os) h = absurd h
  length-Paired (s ∷ ss) (some ch ∷ os) (from, h) = ap suc (length-Paired ss os h)

  append-Paired :
      (ss : List Source) (os : List (Option r.ChangeSet)) (s : Source) (ch : r.ChangeSet)
      → Paired r Source From ss os
      → From s ch
      → Paired r Source From (ss ++ s ∷ []) (os ++ some ch ∷ [])
  append-Paired [] [] s ch h from = (from, tt)
  append-Paired [] (o ∷ os) s ch h from = absurd h
  append-Paired (t ∷ ss) [] s ch h from = absurd h
  append-Paired (t ∷ ss) (none ∷ os) s ch h from = absurd h
  append-Paired (t ∷ ss) (some c ∷ os) s ch (here, h) from = (here, append-Paired ss os s ch h from)

  set-Paired :
      (ss : List Source) (os : List (Option r.ChangeSet)) (i : ℕ) (s : Source) (ch : r.ChangeSet)
      → Paired r Source From ss os
      → At i s ss
      → From s ch
      → Paired r Source From ss (set os i (some ch))
  set-Paired [] os i s ch h at from = absurd at
  set-Paired (t ∷ ss) [] i s ch h at from = absurd h
  set-Paired (t ∷ ss) (none ∷ os) i s ch h at from = absurd h
  set-Paired (t ∷ ss) (some c ∷ os) zero s ch (here, h) at from =
      (subst (λ u. From u ch) (sym at) from, h)
  set-Paired (t ∷ ss) (some c ∷ os) (suc i) s ch (here, h) at from =
      (here, set-Paired ss os i s ch h at from)

  update-IsSound :
      (m : Memory r Source) → IsSound r Source From m → IsSound r Source From (update r Source m)
  unfolding update
  update-IsSound m h = elim (Option-cases m.vals) [
    | inl missing ↦ subst (IsSound r Source From) (ground arith) h
    | inr (vals, has) ↦ elim (Option-cases m.snap) [
      | inl missing ↦ subst (IsSound r Source From) (ground arith) h
      | inr (snap, at) ↦
          let moved : IsSound r Source From
              (record m { watchers = map (send r vals snap.version) m.watchers }) =
            record { paired = h.paired; indexed = h.indexed; consistent = h.consistent } in
          subst (IsSound r Source From) (ground arith) moved
    ]
  ]

  install-IsSound :
      (vals : r.Values) (cs : r.ChangeSet) (now : ℤ) (m : Memory r Source)
      → r.values cs ≡ ok vals
      → IsSound r Source From m
      → IsSound r Source From (install r Source (some vals) cs now m)
  unfolding install
  install-IsSound vals cs now m parsed h = record {
    paired = h.paired;
    indexed = h.indexed;
    consistent = (_, refl, parsed);
  }

  rebuild-IsSound :
      (sets : List (Option r.ChangeSet)) (now : ℤ) (m : Memory r Source)
      → IsSound r Source From m
      → IsSound r Source From (rebuild r Source sets now m).1
  unfolding rebuild
  rebuild-IsSound sets now m h = elim (Result-cases (r.merge sets)) [
    | inr (e, bad) ↦ subst (IsSound r Source From) (ground arith) h
    | inl (cs, merged) ↦ elim (Result-cases (r.values cs)) [
      | inr (e, bad) ↦ subst (IsSound r Source From) (ground arith) h
      | inl (vals, parsed) ↦ subst (IsSound r Source From) (ground arith) (
          update-IsSound (install r Source (some vals) cs now m)
            (install-IsSound vals cs now m parsed h))
    ]
  ]

  pub sync-IsSound :
      (read : Source → Result Text r.ChangeSet) (now : ℤ) (m : Memory r Source)
      → IsSound r Source From m
      → IsSound r Source From (sync r Source read now m).1
  unfolding sync
  sync-IsSound read now m h =
      let sets = (read_all r Source read m.sources).0 in
      let rebuilt = rebuild-IsSound sets now m h in
      elim (Option-cases (rebuild r Source sets now m).0) [
        | inl went ↦ subst (IsSound r Source From) (ground arith) rebuilt
        | inr (e, bad) ↦ subst (IsSound r Source From) (ground arith) rebuilt
      ]

  pub source_changed-IsSound :
      (idx : ℕ) (s : Source) (before after : List (ℕ × Source)) (cs : r.ChangeSet) (now : ℤ)
      (m : Memory r Source)
      → m.watched ≡ before ++ (idx, s) ∷ after
      → From s cs
      → IsSound r Source From m
      → IsSound r Source From (source_changed r Source idx cs now m).1
  unfolding source_changed install
  source_changed-IsSound idx s before after cs now m given from h =
      let m₁ : Memory r Source = record m { sets = set m.sets idx (some cs) } in
      let at : At idx s m.sources =
        All-at (λ (p : ℕ × Source). At p.0 p.1 m.sources) before (idx, s) after
          (subst (All (λ (p : ℕ × Source). At p.0 p.1 m.sources)) given h.indexed) in
      let h₁ : IsSound r Source From m₁ = record {
        paired = set-Paired m.sources m.sets idx s cs h.paired at from;
        indexed = h.indexed;
        consistent = h.consistent;
      } in
      elim (Result-cases (r.merge m₁.sets)) [
        | inr (e, bad) ↦ subst (IsSound r Source From) (ground arith) h₁
        | inl (merged_set, merged) ↦ elim (Result-cases (r.values merged_set)) [
          | inl (vals, parsed) ↦ subst (IsSound r Source From) (ground arith) (
              update-IsSound (install r Source (some vals) merged_set now m₁)
                (install-IsSound vals merged_set now m₁ parsed h₁))
          | inr (e, bad) ↦ subst (IsSound r Source From) (ground arith) (
              update-IsSound (install r Source none merged_set now m₁)
                (record { paired = h₁.paired; indexed = h₁.indexed; consistent = tt }))
        ]
      ]

  pub load_one-IsSound :
      (s : Source) (ch : r.ChangeSet) (m : Memory r Source)
      → From s ch
      → IsSound r Source From m
      → IsSound r Source From (load_one r Source s ch m)
  load_one-IsSound s ch m from h =
      let older = Ats-append m.watched m.sources (s ∷ []) h.indexed in
      let last : At (length m.sets) s (m.sources ++ s ∷ []) =
        subst (λ n. At n s (m.sources ++ s ∷ [])) (sym (length-Paired m.sources m.sets h.paired))
          (At-last s m.sources) in
      record {
        paired = append-Paired m.sources m.sets s ch h.paired from;
        indexed = elim (Bool-cases m.watcher_disabled) [
          | inl off ↦
              subst (All (λ (p : ℕ × Source). At p.0 p.1 (m.sources ++ s ∷ []))) {x = m.watched}
                (ground arith) older
          | inr on ↦
              subst (All (λ (p : ℕ × Source). At p.0 p.1 (m.sources ++ s ∷ [])))
                {x = m.watched ++ (length m.sets, s) ∷ []} (ground arith)
                (All-append (λ (p : ℕ × Source). At p.0 p.1 (m.sources ++ s ∷ [])) m.watched
                  ((length m.sets, s) ∷ []) older (last, tt))
        ];
        consistent = h.consistent;
      }

  pub reload-IsSound :
      (now : ℤ) (m : Memory r Source)
      → IsSound r Source From m
      → IsSound r Source From (reload r Source now m).1
  unfolding reload
  reload-IsSound now m h = rebuild-IsSound m.sets now m h

  pub get_locked-IsSound :
      (path : List Text) (m : Memory r Source)
      → IsSound r Source From m
      → IsSound r Source From (get_locked r Source path m).1
  unfolding get_locked
  get_locked-IsSound path m h = elim (Option-cases m.vals) [
    | inr (vals, has) ↦ subst (IsSound r Source From) (ground arith) h
    | inl missing ↦ elim (Option-cases m.snap) [
      | inl lost ↦ subst (IsSound r Source From) (ground arith) h
      | inr (snap, at) ↦ elim (Result-cases (r.values snap.change_set)) [
        | inr (e, bad) ↦ subst (IsSound r Source From) (ground arith) h
        | inl (vals, parsed) ↦
            let h' : IsSound r Source From (record m { vals = some vals }) = record {
              paired = h.paired;
              indexed = h.indexed;
              consistent = (snap, at, parsed);
            } in
            subst (IsSound r Source From) (ground arith) h'
      ]
    ]
  ]

  pub watch_locked-IsSound :
      (path : List Text) (v : r.Value) (m : Memory r Source)
      → IsSound r Source From m
      → IsSound r Source From (watch_locked r Source path v m).1
  unfolding watch_locked
  watch_locked-IsSound path v m h = elim (Option-cases m.snap) [
    | inl lost ↦ subst (IsSound r Source From) (ground arith) h
    | inr (snap, at) ↦
        let w : Watcher r = record {
          path = path;
          value = v;
          version = snap.version;
          updates = none;
          stopped = false;
        } in
        let h' : IsSound r Source From (record m { watchers = m.watchers ++ w ∷ [] }) = record {
          paired = h.paired;
          indexed = h.indexed;
          consistent = h.consistent;
        } in
        subst (IsSound r Source From) (ground arith) h'
  ]
