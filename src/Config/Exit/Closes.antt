-- ===== src/Config/Exit/Closes.antt =====
-- How often the channel is closed, and which calls panic.
use finokit.Base.{ℕ, List, [], ◌∷◌, true, ◌≡◌, ◌≢◌, refl, arith, if◌then◌else◌}
use finokit.Config.Exit.{tested, returned, panicked, Shared, advance, run, start, in_turn}

-- The channel is closed just when it was closed once, a call that returned finds it closed, and so did
-- one that panicked.
pub record IsOnce (s : Shared) : Type 0 where
  pub once : s.closes ≡ (if s.closed then 1 else 0)
  pub settled : (i : ℕ) → s.calls i ≡ returned → s.closed ≡ true
  pub late : (i : ℕ) → s.calls i ≡ panicked → s.closed ≡ true

advance-IsOnce : (i : ℕ) (s : Shared) → IsOnce s → IsOnce (advance i s)
unfolding advance
advance-IsOnce i s inv = record {
  once = ground (arith, inv.once);
  settled = λ j h. ground (arith, inv.settled j, inv.late j);
  late = λ j h. ground (arith, inv.settled j, inv.late j);
}

run-IsOnce_from : (is : List ℕ) (s : Shared) → IsOnce s → IsOnce (run is s)
unfolding run
run-IsOnce_from [] s inv = inv
run-IsOnce_from (i ∷ is) s inv = run-IsOnce_from is (advance i s) (advance-IsOnce i s inv)

-- Whatever calls of `Close` there are, and however their steps come, the channel is closed once at most,
-- and it is closed as soon as one of the calls has returned or panicked.
pub run-IsOnce : (is : List ℕ) → IsOnce (run is start)
run-IsOnce is =
    run-IsOnce_from is start (record { once = refl; settled = λ i h. cc; late = λ i h. cc })

-- No call is under way, and none has panicked.
abbrev pub IsQuiet : Shared → Type 0
IsQuiet s = (i : ℕ) → (s.calls i ≢ tested) × (s.calls i ≢ panicked)

advance-twice-IsQuiet : (i : ℕ) (s : Shared) → IsQuiet s → IsQuiet (advance i (advance i s))
unfolding advance
advance-twice-IsQuiet i s quiet j =
    (λ h. ground (arith, quiet i, quiet j), λ h. ground (arith, quiet i, quiet j))

-- Calls of `Close` that come one after the other do not panic, however many they are.
pub run-in_turn-IsQuiet : (is : List ℕ) (s : Shared) → IsQuiet s → IsQuiet (run (in_turn is) s)
unfolding run
run-in_turn-IsQuiet [] s quiet = quiet
run-in_turn-IsQuiet (i ∷ is) s quiet =
    run-in_turn-IsQuiet is (advance i (advance i s)) (advance-twice-IsQuiet i s quiet)

-- Two calls of `Close` that have both found the channel open, before either closes it: the one that goes
-- on last panics.
pub overlap_panics :
    (s : Shared) (i j : ℕ)
    → i ≢ j
    → s.calls i ≡ tested
    → s.calls j ≡ tested
    → (run (i ∷ j ∷ []) s).calls j ≡ panicked
unfolding run advance
overlap_panics s i j apart first second = ground arith
