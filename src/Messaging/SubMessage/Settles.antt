-- ===== src/Messaging/SubMessage/Settles.antt =====
-- A message is settled once.
use finokit.Base.{
  List, [], ◌∷◌, ◌++◌, Option, none, some, Bool, true, false, if◌then◌else◌, ◌≡◌, refl, ap, ◌∙◌,
}
use mathlib.Core.List.{append-nil}
use finokit.Messaging.SubMessage.{
  Call, fresh, ack, nak, term, in_progress, SubMessage, HandlerRun, run, complete_message, deliver,
}

-- A call that settles the message at the server.
abbrev pub settles : Call → Bool
settles in_progress = false
settles _ = true

-- The settling calls of a log.
unfoldable pub settlements : List Call → List Call
settlements [] = []
settlements (c ∷ cs) = let rest = settlements cs in if settles c then c ∷ rest else rest

-- The first settling call of a list, or the given one where there is none.
unfoldable pub settled_by : List Call → Call → Call
settled_by [] c = c
settled_by (c ∷ cs) last = let rest = settled_by cs last in if settles c then c else rest

settlements-append : (a b : List Call) → settlements (a ++ b) ≡ settlements a ++ settlements b
unfolding settlements
settlements-append [] b = refl
settlements-append (ack ∷ a) b = ap (◌∷◌ ack) (settlements-append a b)
settlements-append (nak ∷ a) b = ap (◌∷◌ nak) (settlements-append a b)
settlements-append (term ∷ a) b = ap (◌∷◌ term) (settlements-append a b)
settlements-append (in_progress ∷ a) b = settlements-append a b

-- A message with the JetStream callbacks.
abbrev attached : Bool → List Call → SubMessage
attached d l = record {
  done = d;
  on_ack = some ack;
  on_nak = some nak;
  on_term = some term;
  on_in_progress = some in_progress;
  log = l;
}

abbrev log_of : Option SubMessage → List Call
log_of none = []
log_of (some m) = m.log

-- The log at the end of a handler's run, from a message with the log l.
unfoldable final : Bool → List Call → List Call → Bool → List Call
unfolding run complete_message
final d l cs failed = log_of (complete_message (some (run (attached d l) cs)) failed true)

progress_lem : (l : List Call) → settlements (l ++ in_progress ∷ []) ≡ settlements l
unfolding settlements
progress_lem l = settlements-append l (in_progress ∷ []) ∙ append-nil (settlements l)

final_done : (l cs : List Call) (f : Bool) → settlements (final true l cs f) ≡ settlements l
unfolding final
final_done l [] f = refl
final_done l (ack ∷ cs) f = final_done l cs f
final_done l (nak ∷ cs) f = final_done l cs f
final_done l (term ∷ cs) f = final_done l cs f
final_done l (in_progress ∷ cs) f = final_done (l ++ in_progress ∷ []) cs f ∙ progress_lem l

final_open :
    (l cs : List Call) (f : Bool)
    → settlements (final false l cs f)
      ≡ settlements l ++ settled_by cs (if f then nak else ack) ∷ []
unfolding final settled_by settlements
final_open l [] true = settlements-append l (nak ∷ [])
final_open l [] false = settlements-append l (ack ∷ [])
final_open l (ack ∷ cs) f = final_done (l ++ ack ∷ []) cs f ∙ settlements-append l (ack ∷ [])
final_open l (nak ∷ cs) f = final_done (l ++ nak ∷ []) cs f ∙ settlements-append l (nak ∷ [])
final_open l (term ∷ cs) f = final_done (l ++ term ∷ []) cs f ∙ settlements-append l (term ∷ [])
final_open l (in_progress ∷ cs) f =
    final_open (l ++ in_progress ∷ []) cs f
    ∙ ap (λ r. r ++ settled_by cs (if f then nak else ack) ∷ []) (progress_lem l)

-- Without the callbacks nothing is called.
run_bare : (cs : List Call) → run fresh cs ≡ fresh
unfolding run
run_bare [] = refl
run_bare (ack ∷ cs) = run_bare cs
run_bare (nak ∷ cs) = run_bare cs
run_bare (term ∷ cs) = run_bare cs
run_bare (in_progress ∷ cs) = run_bare cs

-- Whatever its handler calls, a decoded JetStream message is settled exactly once: by the first
-- settling call that the handler makes, or, when it makes none, by a negative acknowledgement if the
-- handler failed and an acknowledgement otherwise. A JetStream payload that does not decode is
-- terminated, and no call at all is made for a message without JetStream.
pub deliver_lem :
    (h : HandlerRun)
    → (settlements (deliver true true h) ≡ settled_by h.calls (if h.failed then nak else ack) ∷ [])
      × (deliver true false h ≡ term ∷ [])
      × (deliver false true h ≡ [])
      × (deliver false false h ≡ [])
unfolding deliver final settlements complete_message
deliver_lem h = (
  final_open [] h.calls h.failed,
  refl,
  ap (λ m. log_of (complete_message (some m) h.failed false)) (run_bare h.calls),
  refl,
)
