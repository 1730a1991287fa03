-- ===== src/Messaging/Client.antt =====
-- messaging/client.go and messaging/queue.go. A method returns its error and the state after it;
-- a nil pointer or interface is none.
pub mod Services
use finokit.Base.{
  List, [], ◌∷◌, ◌++◌, Option, none, some, Bool, true, false, not, ◌&&◌, Result, ok, err, Text,
  text_eq, is_empty, trim_space, text_key, lookup, if◌then◌else◌, ◌≡◌,
}
use finokit.Messaging.Shared.{
  Error, nil_client, nil_queue, nil_subscription, nil_handler, empty_topic, unknown_endpoint,
  subscribe_service_failed, Endpoint, Subscription, validate,
}

-- What the client calls on its queue, whose state is Q, with handlers H, contexts C and messages M; and what a
-- queue promises: the subscriptions it holds grow by the accepted one, or stay as they are.
pub record Queue (Q H C M : Type 0) : Type 1 where
  pub subscribe_to : Subscription → H → Q → Option Error × Q
  pub publish_on : C → Text → List M → Q → Option Error × Q
  pub close_queue : Q → Option Error × Q
  pub accepted : Q → List (Subscription × H)
  pub subscribe_accepts :
      (s : Subscription) (h : H) (q : Q)
      → (subscribe_to s h q).0 ≡ none
      → accepted (subscribe_to s h q).1 ≡ accepted q ++ (s, h) ∷ []
  pub subscribe_refuses :
      (s : Subscription) (h : H) (q : Q) (e : Error)
      → (subscribe_to s h q).0 ≡ some e
      → accepted (subscribe_to s h q).1 ≡ accepted q

pub record Client (Q : Type 0) : Type 0 where
  pub queue : Option Q
  pub subscriptions : List (Option Subscription)
  pub closed : Bool
  pub close_err : Option Error

module _ {Q H C M : Type 0} (ops : Queue Q H C M) where
  unfoldable pub new_with_queue : Option Q → Result Error (Client Q)
  new_with_queue none = err nil_queue
  new_with_queue (some q) =
      ok (record { queue = some q; subscriptions = []; closed = false; close_err = none })

  -- The body that `closeOnce` runs.
  unfoldable pub close_body : Option Q → Client Q → Client Q
  close_body none c = record c { closed = true }
  close_body (some q) c =
      let (e, q') = ops.close_queue q in record c { queue = some q'; closed = true; close_err = e }

  unfoldable pub close : Option (Client Q) → Option Error × Option (Client Q)
  unfolding close_body
  close none = (none, none)
  close (some c) =
      let after = close_body c.queue c in
      let c' = if c.closed then c else after in (c'.close_err, some c')

  -- `Subscribe` past its test of the client.
  unfoldable pub subscribe_at : Option Subscription → Option H → Client Q → Option Error × Client Q
  unfolding validate
  subscribe_at s h c = elim c.queue [
    | none ↦ (some nil_queue, c)
    | some q ↦ elim (validate s) [
      | err e ↦ (some e, c)
      | ok s' ↦ elim h [
        | none ↦ (some nil_handler, c)
        | some h' ↦ let (e, q') = ops.subscribe_to s' h' q in (e, record c { queue = some q' })
      ]
    ]
  ]

  unfoldable pub subscribe :
      Option Subscription → Option H → Option (Client Q) → Option Error × Option (Client Q)
  unfolding subscribe_at
  subscribe s h none = (some nil_client, none)
  subscribe s h (some c) = let (e, c') = subscribe_at s h c in (e, some c')

  -- An endpoint of another service is left to that service.
  unfoldable pub is_foreign : Text → Subscription → Bool
  is_foreign service s =
      not (is_empty s.endpoint.service) && not (text_eq s.endpoint.service service)

  -- The loop of `SubscribeService`.
  unfoldable pub subscribe_each :
      Text
      → List (Text × Option H)
      → List (Option Subscription)
      → Client Q
      → Option Error × Client Q
  unfolding is_foreign lookup subscribe_at
  subscribe_each service handlers [] c = (none, c)
  subscribe_each service handlers (none ∷ ss) c = (some nil_subscription, c)
  subscribe_each service handlers (some s ∷ ss) c = elim (is_foreign service s) [
    | true ↦ subscribe_each service handlers ss c
    | false ↦ elim (lookup s.endpoint.method handlers) [
      | none ↦ (some (unknown_endpoint service s.endpoint.method), c)
      | some h ↦
          let (e, c') = subscribe_at (some s) h c in
          elim e [
            | none ↦ subscribe_each service handlers ss c'
            | some cause ↦
                (some (subscribe_service_failed service s.endpoint.method s.topic cause), c')
          ]
    ]
  ]

  unfoldable pub subscribe_service :
      Text → List (Text × Option H) → Option (Client Q) → Option Error × Option (Client Q)
  unfolding subscribe_each
  subscribe_service service handlers none = (some nil_client, none)
  subscribe_service service handlers (some c) = elim c.queue [
    | none ↦ (some nil_queue, some c)
    | some q ↦ let (e, c') = subscribe_each service handlers c.subscriptions c in (e, some c')
  ]

  unfoldable pub publish : C → Text → List M → Option (Client Q) → Option Error × Option (Client Q)
  unfolding trim_space
  publish ctx topic messages none = (some nil_client, none)
  publish ctx topic messages (some c) = elim c.queue [
    | none ↦ (some nil_queue, some c)
    | some q ↦ elim (is_empty (trim_space topic)) [
      | true ↦ (some empty_topic, some c)
      | false ↦
          let (e, q') = ops.publish_on ctx topic messages q in
          (e, some (record c { queue = some q' }))
    ]
  ]
