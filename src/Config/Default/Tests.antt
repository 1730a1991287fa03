-- ===== src/Config/Default/Tests.antt =====
-- Runs of a configuration, on a reader whose change sets, merged values and values are texts.
use mathlib.Core.List.{append-nil, append_assoc}
use finokit.Base.{
  ℕ, List, [], ◌∷◌, ◌++◌, text_eq, Option, none, some, true, false, Text, text, pos, Result, ok,
  err, ◌≡◌, ◌↔◌, refl, is_empty, if◌then◌else◌, digits_value, sym, ap, ◌∙◌, arith, ◌<◌, ◌^◌,
  digits_value-format_nat,
}
use finokit.Config.Loader.Watchers.{Reader, Watcher, snapshot_newer, value_at}
use finokit.Config.Loader.Watchers.Versions.{returned}
use finokit.Config.Loader.Memory.{gen_ver, Snapshot, Memory}
use finokit.Config.Loader.Memory
use finokit.Config.Loader.Memory.{source_changed}
use finokit.Config.Loader.Memory.Undone.{source_changed-sync}
use finokit.Config.Loader.Memory.Access.{new_loader}
use finokit.Config.Loader.Memory.Access
use finokit.Config.Loader.Memory.Watching.{Change, watch}
use finokit.Config.Default.{Config, Edits, init, set_at}
use finokit.Config.Default.Running.{Arrival, Round, run, heard}
use finokit.Config.Default.Newest.{IsEditing, IsNewest}
use finokit.Config.Default.Follows.{run-IsNewest}
use finokit.Config.Default.Starting.{new_config_iff, starts, IsStarted, started}
use finokit.Config.Default.Watching.{delivered, next_results, change_back_is_missed}

-- The last change set counts, and the text "bad" cannot be parsed.
abbrev last_set : Text → List (Option Text) → Text
last_set t [] = t
last_set t (none ∷ sets) = last_set t sets
last_set t (some u ∷ sets) = last_set u sets

abbrev toy : Reader
toy = record {
  ChangeSet = Text;
  Values = Text;
  Value = Text;
  merge = λ sets. ok (last_set [] sets);
  values = λ t. if is_empty t then err (text "empty") else ok t;
  get = λ t path. ok (some t);
  bytes = λ t. t;
  parse_int = λ t. some (pos (digits_value 0 t));
}

abbrev edits : Edits toy
edits = record {
  set_value = λ v path vals. v;
  delete_value = λ path vals. [];
  all_bytes = λ vals. vals;
  data_of = λ t. t;
}

-- Change sets that come at a time, and a loader's snapshot of one.
abbrev at : ℕ → Text → Snapshot toy ℕ
at n t = record { change_set = t; version = gen_ver (pos n) }

-- A configuration whose `Set` appends to the values.
abbrev appending : Edits toy
appending = record {
  set_value = λ v path vals. vals ++ v;
  delete_value = λ path vals. [];
  all_bytes = λ vals. vals;
  data_of = λ t. t;
}

abbrev setting : Config toy ℕ → Config toy ℕ
setting c = set_at toy ℕ appending (text "!") [] c

abbrev quiet : Config toy ℕ → Config toy ℕ
quiet c = c

abbrev Appended : Text → Text → Type 0
Appended v w = (t : Text) × (w ≡ v ++ t)

setting-IsEditing : IsEditing toy ℕ Appended setting
unfolding set_at
setting-IsEditing c v has = (ground arith, (v ++ text "!", ground arith, (text "!", refl)))

quiet-IsEditing : IsEditing toy ℕ Appended quiet
quiet-IsEditing c v has = (refl, (v, has, ([], sym (append-nil v))))

Appended-twice : (u v w : Text) → Appended u v → Appended v w → Appended u w
Appended-twice u v w (s, same) (t, same') =
    (s ++ t, same' ∙ ap (λ l. l ++ t) same ∙ append_assoc u s t)

parses_lem : (n : ℕ) → n < 2 ^ 63 → toy.parse_int (gen_ver (pos n)) ≡ some (pos n)
unfolding gen_ver
parses_lem n lt = ap (λ m. some (pos m)) (digits_value-format_nat n)

abbrev nothing_came : Arrival toy ℕ
nothing_came = record { others = quiet; snapshot = none }

abbrev came : ℕ → Text → Arrival toy ℕ
came n t = record { others = setting; snapshot = some (at n t) }

abbrev rounds : List (Round toy ℕ)
rounds =
    record { came = none; others = setting; closed = false }
    ∷ record {
      came = some (nothing_came ∷ came 2 (text "b") ∷ came 3 [] ∷ []);
      others = quiet;
      closed = false;
    }
    ∷ []

initialized : (init toy ℕ none (ok (at 1 (text "a")))).0 ≡ none
unfolding init
initialized = refl

run-IsNewest_example :
    let c = (init toy ℕ none (ok (at 1 (text "a")))).1 in
    let closing : Round toy ℕ = record {
      came = some (came 4 (text "d") ∷ []);
      others = quiet;
      closed = true;
    } in
    let at_end = run toy ℕ (rounds ++ closing ∷ rounds) c in
    ((run toy ℕ rounds c).1 ≡ false)
    × IsNewest toy ℕ Appended (at 1 (text "a") ∷ heard toy ℕ rounds) (run toy ℕ rounds c).0
    × (at_end.1 ≡ true)
    × IsNewest toy ℕ Appended
        (at 1 (text "a") ∷ (heard toy ℕ rounds ++ at 4 (text "d") ∷ []))
        at_end.0
run-IsNewest_example =
    run-IsNewest toy ℕ Appended (λ v. ([], sym (append-nil v))) Appended-twice parses_lem
      (at 1 (text "a")) 1 rounds rounds (came 4 (text "d") ∷ []) quiet initialized refl
      (omega arith)
      (
        (tt, setting-IsEditing),
        (((quiet-IsEditing, (setting-IsEditing, (setting-IsEditing, tt))), quiet-IsEditing), tt),
      )
      ((setting-IsEditing, tt), quiet-IsEditing) (refl, (refl, tt))
      ((2, refl, omega arith), ((3, refl, omega arith), tt)) ((4, refl, omega arith), tt)

abbrev read : ℕ → Result Text Text
read n = ok (text "c")

new_config_iff_example :
    ((m : Memory toy ℕ) × (starts toy ℕ read (pos 5) (λ es. []) (λ n. []) (1 ∷ []) false
        ≡ ok (started toy ℕ read (pos 5) (λ es. []) (text "c") (text "c"), m, true)))
    ↔ IsStarted toy ℕ read
        (pos 5)
        (λ es. [])
        (1 ∷ [])
        false
        (started toy ℕ read (pos 5) (λ es. []) (text "c") (text "c"))
        true
new_config_iff_example =
    new_config_iff toy ℕ read (pos 5) (λ es. []) (λ n. []) (1 ∷ []) false
      (started toy ℕ read (pos 5) (λ es. []) (text "c") (text "c")) true

-- A watcher that was made when the value was "a".
abbrev watcher : Watcher toy
watcher = record {
  path = [];
  value = text "a";
  version = gen_ver (pos 1);
  updates = none;
  stopped = false;
}

newer : snapshot_newer toy (gen_ver (pos 2)) (gen_ver (pos 1)) ≡ true
unfolding snapshot_newer gen_ver digits_value
newer = refl

later : snapshot_newer toy (gen_ver (pos 3)) (gen_ver (pos 2)) ≡ true
unfolding snapshot_newer gen_ver digits_value
later = refl

found : (t : Text) → value_at toy t [] ≡ some t
unfolding value_at
found t = refl

differ : text_eq (text "a") (text "b") ≡ false
unfolding text_eq
differ = refl

change_back_is_missed_example :
    let reported =
      returned toy (delivered toy ℕ (text "b") 2 (delivered toy ℕ (text "a") 3 [])) [] watcher in
    (reported ≡ (text "b", gen_ver (pos 2)) ∷ (text "a", gen_ver (pos 3)) ∷ [])
    × (next_results toy ℕ edits (λ t. t) (text "a") reported ≡ ok (some (text "b")) ∷ [])
change_back_is_missed_example =
    change_back_is_missed toy ℕ edits (λ t. t) (λ t. refl) (text "b") (text "a") 2 3 watcher
      (text "b") (text "a") (text "b") refl newer later (found (text "b")) (found (text "a")) differ
      refl refl

-- Two change sets of the source 0, the second once the loader was closed.
abbrev changes_seen : List (Change toy ℕ)
changes_seen =
    record { others = λ m. m; change_set = text "x"; now = pos 6 }
    ∷ record { others = λ m. Access.close toy ℕ m; change_set = []; now = pos 7 }
    ∷ []

abbrev start : Memory toy ℕ
start = new_loader toy ℕ (λ n. []) false (1 ∷ 2 ∷ [])

watch_test :
    let w = watch toy ℕ 0 (record { came = some changes_seen; closed = true } ∷ []) start in
    (w.1 ≡ true) × (w.0.sets ≡ some [] ∷ some [] ∷ []) × (w.0.exited ≡ true)
unfolding watch new_loader source_changed Access.close
watch_test = (refl, refl, refl)

source_changed-sync_example :
    let synced = (Memory.sync toy ℕ read (pos 8) start).1 in
    ((source_changed toy ℕ 1 (text "new") (pos 9) synced).1.vals
      ≡ (source_changed toy ℕ 1 (text "new") (pos 9) start).1.vals)
    × ((source_changed toy ℕ 1 (text "new") (pos 9) synced).1.snap
        ≡ (source_changed toy ℕ 1 (text "new") (pos 9) start).1.snap)
unfolding new_loader
source_changed-sync_example =
    source_changed-sync toy ℕ read (pos 8) 1 (text "new") (pos 9) start (text "new") refl
