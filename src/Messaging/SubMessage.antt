-- ===== src/Messaging/SubMessage.antt =====
-- messaging/sub_message.go, and the delivery of one message by the callback that `Subscribe` of
-- messaging/nats.go makes. A message keeps a log of the calls that its callbacks made; `done` is
-- changed by a compare-and-swap, so calls from several goroutines are a sequence of calls.
pub mod Settles
use finokit.Base.{
  List, [], ◌∷◌, ◌++◌, Option, none, some, Bool, true, false, not, ◌||◌, if◌then◌else◌, Text,
}

-- What a callback asks of the server: `raw.Ack()`, `raw.Nak()`, `raw.Term()`, `raw.InProgress()`.
pub data Call : Type 0 where
  ack nak term in_progress : Call

-- The state of a SubMessage; a callback that is not set is none.
pub record SubMessage : Type 0 where
  pub done : Bool
  pub on_ack : Option Call
  pub on_nak : Option Call
  pub on_term : Option Call
  pub on_in_progress : Option Call
  pub log : List Call

abbrev pub fresh : SubMessage
fresh = record {
  done = false;
  on_ack = none;
  on_nak = none;
  on_term = none;
  on_in_progress = none;
  log = [];
}

unfoldable pub set_ack : Option Call → SubMessage → SubMessage
set_ack fn m = record m { on_ack = fn }

unfoldable pub set_nak : Option Call → SubMessage → SubMessage
set_nak fn m = record m { on_nak = fn }

unfoldable pub set_term : Option Call → SubMessage → SubMessage
set_term fn m = record m { on_term = fn }

unfoldable pub set_in_progress : Option Call → SubMessage → SubMessage
set_in_progress fn m = record m { on_in_progress = fn }

-- Nothing is done for a nil callback, and only the first call swaps `done`.
unfoldable pub finish : Option Call → SubMessage → SubMessage
finish none m = m
finish (some fn) m = if m.done then m else record m { done = true; log = m.log ++ fn ∷ [] }

unfoldable pub do_ack : SubMessage → SubMessage
unfolding finish
do_ack m = finish m.on_ack m

unfoldable pub do_nak : SubMessage → SubMessage
unfolding finish
do_nak m = finish m.on_nak m

unfoldable pub do_term : SubMessage → SubMessage
unfolding finish
do_term m = finish m.on_term m

unfoldable pub run_in_progress : Option Call → SubMessage → SubMessage
run_in_progress none m = m
run_in_progress (some fn) m = record m { log = m.log ++ fn ∷ [] }

unfoldable pub do_in_progress : SubMessage → SubMessage
unfolding run_in_progress
do_in_progress m = run_in_progress m.on_in_progress m

-- What a handler may call on its message; `Call` names the method here.
unfoldable pub step : SubMessage → Call → SubMessage
unfolding do_ack do_nak do_term do_in_progress
step m ack = do_ack m
step m nak = do_nak m
step m term = do_term m
step m in_progress = do_in_progress m

unfoldable pub run : SubMessage → List Call → SubMessage
unfolding step
run m [] = m
run m (c ∷ cs) = run (step m c) cs

unfoldable pub complete_message : Option SubMessage → Bool → Bool → Option SubMessage
unfolding do_ack do_nak
complete_message none failed acknowledge = none
complete_message (some m) failed acknowledge =
    some (if m.done || not acknowledge then m else if failed then do_nak m else do_ack m)

-- A handler's run on a message: the calls that it makes, and whether it returns an error.
pub record HandlerRun : Type 0 where
  pub calls : List Call
  pub failed : Bool

-- The four callbacks are set only for JetStream.
unfoldable pub attach : Bool → SubMessage → SubMessage
unfolding set_ack set_nak set_term set_in_progress
attach false m = m
attach true m =
    set_in_progress (some in_progress)
      (set_term (some term) (set_nak (some nak) (set_ack (some ack) m)))

-- The callback on a raw message: the calls made to the server. `decoded` says whether the payload
-- is a message; one that is not is terminated, under JetStream, before any handler runs.
unfoldable pub deliver : Bool → Bool → HandlerRun → List Call
unfolding attach run complete_message
deliver jet_stream false h = if jet_stream then term ∷ [] else []
deliver jet_stream true h =
    elim (complete_message (some (run (attach jet_stream fresh) h.calls)) h.failed jet_stream) [
      | none ↦ []
      | some m ↦ m.log
    ]
