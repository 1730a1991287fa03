-- ===== src/Messaging/Tests.antt =====
-- Runs of the messaging definitions, on a server that accepts every call.
use finokit.Messaging.Endpoint.{Answer, handled, serve, deliver-serve}
use finokit.Messaging.Nats.Pull.{Round, messages, timeout, fetch_loop, fetch_loop_lem}
use finokit.Base.{
  ◌⊎◌, if◌then◌else◌, is_empty, ◌++◌, ℕ, List, [], ◌∷◌, Option, none, some, true, false, Text, text,
  text_eq, text_key, lookup, ◌≡◌, refl, pos,
}
use finokit.Messaging.Shared.{Subscription, Stream, Message}
use finokit.Messaging.SubMessage.{Call, ack, nak, term, in_progress, HandlerRun, deliver}
use finokit.Messaging.SubMessage.Settles.{settled_by, deliver_lem, settlements}
use finokit.Messaging.Client.{Client, subscribe_service}
use finokit.Messaging.Client.Services.{subscribe_service_lem, held, Outcome}
use finokit.Messaging.Nats.Streams.{ensure_streams}
use finokit.Messaging.Nats.Streams.Ensured.{ensure_streams_lem, requested}
use finokit.Messaging.Nats.Queue.{
  NatsQueue, State, Context, Held, publish, close, join_all, unsubscribe_all,
}
use finokit.Messaging.Nats.Queue.Accepts.{nats_queue, IsClosed, close_lem}
use finokit.Messaging.Nats.Queue.Sends.{publish_lem}
use finokit.Messaging.Nats.Queue.Sends
use finokit.Messaging.Toy.{Toy, toy}

-- Two settling calls and a failure: the first call counts.
abbrev eager : HandlerRun
eager = record { calls = in_progress ∷ term ∷ ack ∷ []; failed = true }

deliver_lem_example :
    (settlements (deliver true true eager) ≡ term ∷ [])
    × (deliver true false eager ≡ term ∷ [])
    × (deliver false true eager ≡ [])
    × (deliver false false eager ≡ [])
unfolding finokit.Messaging.SubMessage.Settles.settled_by
deliver_lem_example = deliver_lem eager

abbrev orders : Stream
orders = record { name = text " orders "; subjects = text "orders.*" ∷ text " " ∷ [] }

abbrev crowded : Toy
crowded = record {
  streams = (text "orders", text "old" ∷ []) ∷ (text "kept", text "k" ∷ []) ∷ [];
  log = [];
  ended = [];
}

ensured : (ensure_streams toy (some orders ∷ []) crowded).0 ≡ none
unfolding ensure_streams lookup text_eq
ensured = refl

ensure_streams_lem_example :
    lookup (text "orders") (ensure_streams toy (some orders ∷ []) crowded).1.streams
    ≡ (elim (requested (some orders ∷ []) (text "orders")) [
      | some subjects ↦ some subjects
      | none ↦ lookup (text "orders") crowded.streams
    ])
ensure_streams_lem_example =
    ensure_streams_lem toy (some orders ∷ []) crowded (text "orders") ensured

abbrev placed : Subscription
placed = record {
  name = text "placed";
  topic = text "orders.placed";
  group = text "billing";
  pull = true;
  ack_wait = pos 0;
  pull_max_waiting = pos 0;
  pending_msg_limit = pos 10;
  pending_bytes_limit = pos 0;
  endpoint = record { service = text "orders"; method = text "Placed" };
}

abbrev idle : State toy ℕ
idle = record {
  world = crowded;
  jet_stream = true;
  subscriptions = [];
  stopped = false;
  closed = false;
  close_err = [];
}

abbrev client : Client (State toy ℕ)
client = record {
  queue = some idle;
  subscriptions = some placed ∷ [];
  closed = false;
  close_err = none;
}

abbrev handlers : List (Text × Option ℕ)
handlers = (text "Placed", some 5) ∷ []

subscribe_service_lem_example :
    (c' : Client (State toy ℕ)) × ((subscribe_service
        (nats_queue toy ℕ)
        (text "orders")
        handlers
        (some client)).1
      ≡ some c')
    × Outcome
        (nats_queue toy ℕ)
        (text "orders")
        handlers
        (some placed ∷ [])
        (subscribe_service (nats_queue toy ℕ) (text "orders") handlers (some client)).0
        []
        (held (nats_queue toy ℕ) c')
subscribe_service_lem_example =
    subscribe_service_lem (nats_queue toy ℕ) (text "orders") handlers client idle refl

-- The client subscribes to what it was configured for.
subscribes : (subscribe_service (nats_queue toy ℕ) (text "orders") handlers (some client)).0 ≡ none
unfolding subscribe_service text_eq finokit.Messaging.Nats.Queue.subscribe
subscribes = refl

abbrev note : Message
note = record { id = text "m1"; attributes = []; payload = text "hello" }

abbrev alive : Context
alive = record { failure = none; has_deadline = true }

publish_lem_example :
    Sends.Outcome toy ℕ true true
      (text "orders.placed")
      (some note ∷ none ∷ [])
      (publish toy ℕ (some alive) (text "orders.placed") (some note ∷ none ∷ []) idle).0
      []
      (publish toy ℕ (some alive) (text "orders.placed") (some note ∷ none ∷ []) idle).1.world.log
publish_lem_example =
    publish_lem toy ℕ alive (text "orders.placed") (some note ∷ none ∷ []) idle refl

abbrev busy : State toy ℕ
busy = record idle { subscriptions = record { sub = 7; callback = (placed, 5) } ∷ [] }

close_lem_example : IsClosed toy ℕ busy
close_lem_example = close_lem toy ℕ busy refl

abbrev rounds : List (Round ℕ)
rounds =
    record { closing = false; fetched = messages (4 ∷ []) }
    ∷ record { closing = false; fetched = timeout }
    ∷ record { closing = false; fetched = messages (5 ∷ []) }
    ∷ []

abbrev closing_round : Round ℕ
closing_round = record { closing = true; fetched = messages (6 ∷ []) }

fetch_loop_lem_example :
    (fetch_loop rounds ≡ (4 ∷ 5 ∷ [], false))
    × (fetch_loop (rounds ++ closing_round ∷ []) ≡ (4 ∷ 5 ∷ [], true))
fetch_loop_lem_example =
    fetch_loop_lem rounds closing_round [] ((refl, tt), ((refl, tt), ((refl, tt), tt))) refl

-- A payload that is its own request, and an endpoint that refuses empty ones.
abbrev plain : Text → Text × Option Text
plain t = (t, none)

abbrev answer : Text → Answer
answer t = record {
  calls = in_progress ∷ [];
  error = if is_empty t then some (text "empty") else none;
}

deliver-serve_example :
    let served = serve plain answer placed [] in
    ((e : Text) × ((plain []).1 ≡ some e)
      × (served.asked ≡ [])
      × (settlements (deliver true true (handled plain served)) ≡ term ∷ []))
    ⊎ (((plain []).1 ≡ none)
        × (served.asked ≡ [] ∷ [])
        × (settlements (deliver true true (handled plain served)) ≡ nak ∷ []))
unfolding settled_by
deliver-serve_example = deliver-serve plain answer placed []
