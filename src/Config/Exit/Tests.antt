-- ===== src/Config/Exit/Tests.antt =====
-- Two calls of `Close` from two goroutines.
use finokit.Base.{[], ◌∷◌, false, ◌≡◌, refl, arith}
use finokit.Config.Exit.{Shared, panicked, tested, run}
use finokit.Config.Exit.Closes.{overlap_panics}

abbrev both : Shared
both = record { closed = false; closes = 0; calls = λ i. tested }

overlap_panics_example : (run (0 ∷ 1 ∷ []) both).calls 1 ≡ panicked
overlap_panics_example = overlap_panics both 0 1 (omega arith) refl refl
