-- ===== src/Messaging/Nats/Pull.antt =====
-- The goroutine of `pullSubscribe` in messaging/nats.go, as the sequence of its rounds: each sees
-- whether `closeCh` is closed, and what the fetch gives.
use finokit.Base.{List, [], ◌∷◌, ◌++◌, Bool, true, false, All, ◌≡◌, refl, ap, ◌∙◌}

-- What a fetch gives: messages, a timeout, another error after which the loop goes on, or that the
-- connection or the subscription is gone.
pub data Fetched (M : Type 0) : Type 0 where
  messages : List M → Fetched M
  timeout failed gone : Fetched M

pub record Round (M : Type 0) : Type 0 where
  pub closing : Bool
  pub fetched : Fetched M

module _ {M : Type 0} where
  -- The messages that the callback gets, in order, and whether the goroutine has ended.
  unfoldable pub fetch_loop : List (Round M) → List M × Bool
  fetch_loop [] = ([], false)
  fetch_loop (r ∷ rs) = elim r.closing [
    | true ↦ ([], true)
    | false ↦ elim r.fetched [
      | messages ms ↦ let (later, ended) = fetch_loop rs in (ms ++ later, ended)
      | timeout ↦ fetch_loop rs
      | failed ↦ fetch_loop rs
      | gone ↦ ([], true)
    ]
  ]

  -- What a round fetches.
  abbrev pub fetched_of : Fetched M → List M
  fetched_of (messages ms) = ms
  fetched_of timeout = []
  fetched_of failed = []
  fetched_of gone = []

  abbrev pub all_fetched : List (Round M) → List M
  all_fetched [] = []
  all_fetched (r ∷ rs) = fetched_of r.fetched ++ all_fetched rs

  -- A round that neither sees the channel closed nor loses the subscription.
  abbrev pub IsLive : Fetched M → Type 0
  IsLive (messages ms) = Unit
  IsLive timeout = Unit
  IsLive failed = Unit
  IsLive gone = ⊥

  abbrev pub GoesOn : Round M → Type 0
  GoesOn r = (r.closing ≡ false) × IsLive r.fetched

  fetch_loop-live :
      (c : Bool) (f : Fetched M) (rs : List (Round M))
      → c ≡ false
      → IsLive f
      → fetch_loop (record { closing = c; fetched = f } ∷ rs)
        ≡ (fetched_of f ++ (fetch_loop rs).0, (fetch_loop rs).1)
  unfolding fetch_loop
  fetch_loop-live c (messages ms) rs open_ live = rw open_ refl
  fetch_loop-live c timeout rs open_ live = rw open_ refl
  fetch_loop-live c failed rs open_ live = rw open_ refl
  fetch_loop-live c gone rs open_ live = absurd live

  -- After any rounds in which the queue was open and the subscription there, timeouts and other errors
  -- among them, the goroutine still runs, and has handed on every message that was fetched, once and in
  -- order; and it ends in the first round that sees the queue closed, without handing on what is fetched
  -- then or later.
  pub fetch_loop_lem :
      (rounds : List (Round M)) (last : Round M) (later : List (Round M))
      → All GoesOn rounds
      → last.closing ≡ true
      → (fetch_loop rounds ≡ (all_fetched rounds, false))
        × (fetch_loop (rounds ++ last ∷ later) ≡ (all_fetched rounds, true))
  unfolding fetch_loop
  fetch_loop_lem [] last later live closed = (refl, rw closed refl)
  fetch_loop_lem (r ∷ rounds) last later ((open_, here), live) closed =
      let (runs, ends) = fetch_loop_lem rounds last later live closed in
      let handed : List M × Bool → List M × Bool = λ p. (fetched_of r.fetched ++ p.0, p.1) in
      (
        fetch_loop-live r.closing r.fetched rounds open_ here ∙ ap handed runs,
        fetch_loop-live r.closing r.fetched (rounds ++ last ∷ later) open_ here ∙ ap handed ends,
      )
