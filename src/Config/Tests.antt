-- ===== src/Config/Tests.antt =====
-- Runs of the loader, on a reader whose change sets, merged values and values are numbers.
use finokit.Base.{
  ℕ, ◌+◌, ◌==◌, ◌<◌, ◌^◌, List, [], ◌∷◌, Option, none, some, false, Text, text, pos, Result, ok,
  err, ◌≡◌, ◌≢◌, refl, ap, arith, ◌⊎◌, inl, inr, format_nat, digits_value, digits_value-format_nat,
  if◌then◌else◌,
}
use finokit.Config.Loader.Watchers.{Reader, Watcher, value_at}
use finokit.Config.Loader.Watchers.Versions.{
  versions_rise, Event, tested, pushed, taken, returned, RisesFrom,
}
use finokit.Config.Loader.Memory.{gen_ver, Snapshot, Memory, load, load_one, reload, source_changed}
use finokit.Config.Loader.Memory.Access.{
  nil_pointer, ensure_loaded, copy_snapshot, get_locked, watch_locked, close, new_loader,
}
use finokit.Config.Loader.Memory.Steps.{
  Steps, here, there, appends, reloads, changes, closes, IsSound,
}
use finokit.Config.Loader.Memory.Reachable.{reachable-IsSound, new_loader-IsSound}
use finokit.Config.Loader.Memory.Loaded.{never_nil_pointer}
use finokit.Config.Default.{init}

-- The last change set counts.
abbrev last_set : ℕ → List (Option ℕ) → ℕ
last_set n [] = n
last_set n (none ∷ sets) = last_set n sets
last_set n (some m ∷ sets) = last_set m sets

abbrev toy : Reader
toy = record {
  ChangeSet = ℕ;
  Values = ℕ;
  Value = ℕ;
  merge = λ sets. ok (last_set 0 sets);
  values = λ n. ok n;
  get = λ n path. ok (some n);
  bytes = format_nat;
  parse_int = λ t. some (pos (digits_value 0 t));
}

-- Every source can be read but the source 9.
abbrev read : ℕ → Result Text ℕ
read n = if n == 9 then err (text "unreadable") else ok (n + 100)

abbrev start : Memory toy ℕ
start = new_loader toy ℕ (λ n. n) false (1 ∷ [])

-- A source returns its number, or its number and a hundred, or 7.
abbrev Returns : ℕ → ℕ → Type 0
Returns s ch = (ch ≡ s) ⊎ ((ch ≡ s + 100) ⊎ (ch ≡ 7))

abbrev names : (s : ℕ) → Returns s s
names s = inl refl

-- Another goroutine gives a change set between the two locked parts of a `Load`.
abbrev loading : Memory toy ℕ
loading = load_one toy ℕ 2 102 start

abbrev changed : Memory toy ℕ
changed = (source_changed toy ℕ 0 7 (pos 6) loading).1

abbrev reloaded : Memory toy ℕ
reloaded = (reload toy ℕ (pos 7) changed).1

moves : Steps toy ℕ Returns start reloaded
unfolding new_loader
moves = there (appends 2 102 start (inr (inl refl))) (
    there (changes 0 1 [] ((1, 2) ∷ []) 7 (pos 6) loading refl (inr (inr refl)))
      (there (reloads (pos 7) changed) (here reloaded)))

reachable-IsSound_example : IsSound toy ℕ Returns reloaded
reachable-IsSound_example =
    reachable-IsSound toy ℕ Returns (λ n. n) names false (1 ∷ []) reloaded moves

-- Another goroutine appends a source before `Sync` has the lock.
abbrev appending : Memory toy ℕ → Memory toy ℕ
appending m = load_one toy ℕ 2 102 m

abbrev synced : Memory toy ℕ
synced = (ensure_loaded toy ℕ read (pos 5) appending start).1

syncs_well : (ensure_loaded toy ℕ read (pos 5) appending start).0 ≡ none
unfolding ensure_loaded new_loader
syncs_well = refl

never_nil_pointer_example :
    (copy_snapshot toy ℕ (close toy ℕ synced) ≢ nil_pointer)
    × ((get_locked toy ℕ [] (close toy ℕ synced)).0 ≢ nil_pointer)
    × ((watch_locked toy ℕ [] 3 (close toy ℕ synced)).0 ≢ nil_pointer)
never_nil_pointer_example =
    never_nil_pointer toy ℕ Returns read (pos 5) appending start (close toy ℕ synced) [] 3
      (new_loader-IsSound toy ℕ Returns (λ n. n) names false (1 ∷ [])) syncs_well
      (there (closes synced) (here (close toy ℕ synced)))

loads_well : (load toy ℕ read (pos 5) (2 ∷ 3 ∷ []) start).0 ≡ none
unfolding load new_loader
loads_well = refl

abbrev watcher : Watcher toy
watcher = record {
  path = [];
  value = 3;
  version = gen_ver (pos 5);
  updates = none;
  stopped = false;
}

found : value_at toy 4 [] ≡ some 4
unfolding value_at
found = refl

parses_lem : (n : ℕ) → n < 2 ^ 63 → toy.parse_int (gen_ver (pos n)) ≡ some (pos n)
unfolding gen_ver
parses_lem n lt = ap (λ m. some (pos m)) (digits_value-format_nat n)

abbrev events : List (Event toy)
events =
    tested 4 6
    ∷ tested 5 7
    ∷ pushed 1
    ∷ taken
    ∷ pushed 0
    ∷ taken
    ∷ tested 6 8
    ∷ pushed 0
    ∷ taken
    ∷ []

versions_rise_example : RisesFrom toy 5 (returned toy events [] watcher)
versions_rise_example =
    versions_rise toy parses_lem events 5 watcher
      (omega arith, (omega arith, (tt, (tt, (tt, (tt, (omega arith, (tt, (tt, tt)))))))))
      (omega arith) refl refl

abbrev first_snapshot : Snapshot toy ℕ
first_snapshot = record { change_set = 4; version = gen_ver (pos 5) }

abbrev older_and_newer : List (Snapshot toy ℕ)
older_and_newer =
    record { change_set = 1; version = gen_ver (pos 3) }
    ∷ record { change_set = 8; version = gen_ver (pos 9) }
    ∷ []

starts : (init toy ℕ none (ok first_snapshot)).0 ≡ none
unfolding init
starts = refl
