-- ===== src/Messaging/Nats/Queue.antt =====
-- `natsQueue` of messaging/nats.go: publishing, subscribing and closing.
pub mod Accepts
pub mod Sends
use finokit.Base.{
  ℕ, List, [], ◌∷◌, ◌++◌, Option, none, some, Bool, true, false, ◌&&◌, ◌||◌, Text, text, text_eq,
  is_empty, trim_space, replace_all, if◌then◌else◌, ok, err, Result, ℤ, pos, ltb_ℤ, eqb_ℤ,
}
use finokit.Messaging.Shared.{
  Error, nil_message, marshal_failed, publish_failed, nil_handler, outside, joined, Subscription,
  Config, Message, validate, normalize_config,
}
use finokit.Messaging.Nats.Server.{Server, Request}
use finokit.Messaging.Nats.Streams.{ensure_streams}
use finokit.Messaging.Nats.Open.{open_configured}

-- A subscription at the server with the callback it was made for, a subscription and a handler.
pub record Held (Sub H : Type 0) : Type 0 where
  pub sub : Sub
  pub callback : Subscription × H

pub record NatsQueue (World Sub H : Type 0) : Type 0 where
  pub world : World
  pub jet_stream : Bool
  pub subscriptions : List (Held Sub H)
  -- `closeCh` is closed
  pub stopped : Bool
  pub closed : Bool
  pub close_err : List Error

-- What `Publish` reads of its context.
pub record Context : Type 0 where
  pub failure : Option Text
  pub has_deadline : Bool

-- `errors.Join` of the errors of `Close`; of none it is nil.
abbrev pub join_all : List Error → Option Error
join_all [] = none
join_all (e ∷ es) = elim (join_all es) [ none ↦ some e | some f ↦ some (joined e f) ]

module _ (v : Server) (H : Type 0) where
  abbrev pub State : Type 0
  State = NatsQueue v.World v.Sub H

  unfoldable pub new_nats_queue : Option Config → Result Error State
  unfolding normalize_config ensure_streams
  new_nats_queue cfg = elim (normalize_config cfg) [
    | err e ↦ err e
    | ok c ↦ elim (v.connect c.url) [
      | err e ↦ err (outside e)
      | ok w ↦
          let q : State = record {
            world = w;
            jet_stream = c.jet_stream;
            subscriptions = [];
            stopped = false;
            closed = false;
            close_err = [];
          } in
          elim c.jet_stream [
            | false ↦ ok q
            | true ↦ elim (v.jet_stream w) [
              | some e ↦ err (outside e)
              | none ↦
                  let (e, w') = ensure_streams v c.streams w in
                  elim e [ none ↦ ok (record q { world = w' }) | some e' ↦ err e' ]
            ]
          ]
    ]
  ]

  -- The message identifier and the deadline are options of JetStream only.
  unfoldable pub publish_one : Bool → Text → Text → Text → State → Option Text × State
  publish_one deadline topic payload message_id q =
      let (e, w) : Option Text × v.World = elim q.jet_stream [
        | false ↦
            v.publish_core
              (record { topic = topic; payload = payload; message_id = none; has_deadline = false })
              q.world
        | true ↦
            v.publish_jet
              (record {
                topic = topic;
                payload = payload;
                message_id = if is_empty message_id then none else some message_id;
                has_deadline = deadline;
              })
              q.world
      ] in
      (e, record q { world = w })

  unfoldable pub publish_each : Bool → Text → List (Option Message) → State → Option Error × State
  unfolding publish_one
  publish_each deadline topic [] q = (none, q)
  publish_each deadline topic (none ∷ ms) q = (some nil_message, q)
  publish_each deadline topic (some m ∷ ms) q = elim (v.marshal m) [
    | none ↦ (some marshal_failed, q)
    | some payload ↦
        let (e, q') = publish_one deadline topic payload m.id q in
        elim e [
          | some cause ↦ (some (publish_failed cause), q')
          | none ↦ publish_each deadline topic ms q'
        ]
  ]

  -- `Publish`; a nil context is the background context.
  unfoldable pub publish :
      Option Context → Text → List (Option Message) → State → Option Error × State
  unfolding publish_each
  publish none topic ms q = publish_each false topic ms q
  publish (some ctx) topic ms q = elim ctx.failure [
    | some e ↦ (some (outside e), q)
    | none ↦ publish_each ctx.has_deadline topic ms q
  ]

  unfoldable pub add_subscription : v.Sub → Subscription → H → State → State
  add_subscription sub s h q = record q {
    subscriptions = q.subscriptions ++ (record { sub = sub; callback = (s, h) }) ∷ [];
  }

  unfoldable pub subscribe : Option Subscription → Option H → State → Option Error × State
  unfolding validate open_configured add_subscription
  subscribe s none q = (some nil_handler, q)
  subscribe s (some h) q = elim (validate s) [
    | err e ↦ (some e, q)
    | ok s' ↦
        let (opened, w) = open_configured v q.jet_stream s' q.world in
        elim opened [
          | err e ↦ (some e, record q { world = w })
          | ok sub ↦ (none, add_subscription sub s' h (record q { world = w }))
        ]
  ]

  -- The errors of the unsubscribe calls, in order; one that fails does not stop the others.
  unfoldable pub unsubscribe_all : List (Held v.Sub H) → v.World → List Error × v.World
  unsubscribe_all [] w = ([], w)
  unsubscribe_all (s ∷ ss) w =
      let (e, w₁) = v.unsubscribe s.sub w in
      let (es, w₂) = unsubscribe_all ss w₁ in
      (elim e [ none ↦ es | some cause ↦ outside cause ∷ es ], w₂)

  -- The body that `closeOnce` runs.
  unfoldable pub close_body : State → State
  unfolding unsubscribe_all
  close_body q =
      let (es, w) = unsubscribe_all q.subscriptions q.world in
      record q {
        world = v.disconnect w;
        subscriptions = [];
        stopped = true;
        closed = true;
        close_err = es;
      }

  -- `Close`; joining no error is nil.
  unfoldable pub close : State → Option Error × State
  unfolding close_body
  close q =
      let after = close_body q in
      let q' = if q.closed then q else after in (join_all q'.close_err, q')
