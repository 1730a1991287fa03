-- ===== src/Config/Exit.antt =====
-- `Close` of config/default.go and config/loader/memory/memory.go, and `Stop` of
-- config/source/nats/watcher.go: the three test a channel and close it without a lock, so a call is two
-- steps, and the steps of several calls come in any order.
pub mod Closes
mod Tests
use finokit.Base.{ℕ, ◌+◌, ◌==◌, List, [], ◌∷◌, Bool, true, false, if◌then◌else◌}

-- Where a call stands: not begun, behind the default branch of the select, done, or in the panic that
-- closing a closed channel is.
pub data Call : Type 0 where
  waiting tested returned panicked : Call

pub record Shared : Type 0 where
  pub closed : Bool
  -- how often the channel was closed
  pub closes : ℕ
  pub calls : ℕ → Call

abbrev pub put : (ℕ → Call) → ℕ → Call → ℕ → Call
put f i c j = if i == j then c else f j

-- The next step of one call.
unfoldable pub advance : ℕ → Shared → Shared
advance i s = elim (s.calls i) [
  | waiting ↦ record s { calls = put s.calls i (if s.closed then returned else tested) }
  | tested ↦
      if s.closed
      then record s { calls = put s.calls i panicked }
      else record { closed = true; closes = s.closes + 1; calls = put s.calls i returned }
  | returned ↦ s
  | panicked ↦ s
]

-- The steps of a schedule, which names the call that moves next.
unfoldable pub run : List ℕ → Shared → Shared
unfolding advance
run [] s = s
run (i ∷ is) s = run is (advance i s)

abbrev pub start : Shared
start = record { closed = false; closes = 0; calls = λ i. waiting }

-- Calls that come one after the other.
abbrev pub in_turn : List ℕ → List ℕ
in_turn [] = []
in_turn (i ∷ is) = i ∷ i ∷ in_turn is
