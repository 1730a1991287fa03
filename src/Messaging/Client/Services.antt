-- ===== src/Messaging/Client/Services.antt =====
-- Which subscriptions the queue holds after `SubscribeService`.
use mathlib.Core.List.{append-nil, append_assoc}
use finokit.Base.{
  List, [], ◌∷◌, ◌++◌, Option, none, some, true, false, Text, text_key, lookup, is_empty,
  trim_space, ◌≡◌, refl, sym, ap, ◌∙◌, ◌⊎◌, inl, inr, arith, All, Bool-cases, Option-cases,
}
use finokit.Messaging.Shared.{
  Error, Subscription, validate, nil_handler, nil_queue, empty_topic, unknown_endpoint,
  subscribe_service_failed,
}
use finokit.Messaging.Client.{
  Queue, Client, is_foreign, subscribe_at, subscribe_each, subscribe_service,
}

module _ {Q H C M : Type 0} (ops : Queue Q H C M) where
  -- What the client's queue holds.
  abbrev pub held : Client Q → List (Subscription × H)
  held c = elim c.queue [ none ↦ [] | some q ↦ ops.accepted q ]

  -- The subscriptions for a service, each with its handler.
  unfoldable pub wanted :
      Text → List (Text × Option H) → List (Option Subscription) → List (Subscription × H)
  unfolding lookup is_foreign
  wanted service handlers [] = []
  wanted service handlers (none ∷ ss) = wanted service handlers ss
  wanted service handlers (some s ∷ ss) =
      let rest = wanted service handlers ss in
      elim (is_foreign ops service s) [
        | true ↦ rest
        | false ↦ elim (lookup s.endpoint.method handlers) [
          | some (some h) ↦ (s, h) ∷ rest
          | _ ↦ rest
        ]
      ]

  -- A subscription that is not refused: another service's, or one with a topic and a handler.
  abbrev pub IsReady : Text → List (Text × Option H) → Option Subscription → Type 0
  IsReady service handlers o =
      (s : Subscription) × (o ≡ some s)
      × ((is_foreign ops service s ≡ true)
          ⊎ ((is_empty (trim_space s.topic) ≡ false)
              × ((h : H) × (lookup s.endpoint.method handlers ≡ some (some h)))))

  subscribe_at-cases :
      (s : Subscription) (h : Option H) (c : Client Q)
      → ((h' : H) × (h ≡ some h')
          × (is_empty (trim_space s.topic) ≡ false)
          × ((subscribe_at ops (some s) h c).0 ≡ none)
          × (held (subscribe_at ops (some s) h c).1 ≡ held c ++ (s, h') ∷ []))
        ⊎ ((e : Error) × ((subscribe_at ops (some s) h c).0 ≡ some e)
            × (held (subscribe_at ops (some s) h c).1 ≡ held c))
  unfolding subscribe_at validate
  subscribe_at-cases s h c = elim (Option-cases c.queue) [
    | inl missing ↦ inr (nil_queue, ground arith, ground arith)
    | inr (q, has) ↦ elim (Bool-cases (is_empty (trim_space s.topic))) [
      | inl empty ↦ inr (empty_topic, ground arith, ground arith)
      | inr topic ↦ elim (Option-cases h) [
        | inl absent ↦ inr (nil_handler, ground arith, ground arith)
        | inr (h', given) ↦ elim (Option-cases (ops.subscribe_to s h' q).0) [
          | inl went ↦
              inl
                (h', given, topic, ground arith, ground (arith, ops.subscribe_accepts s h' q went))
          | inr (e, failed) ↦
              inr (e, ground arith, ground (arith, ops.subscribe_refuses s h' q e failed))
        ]
      ]
    ]
  ]

  -- A subscription that can be refused: nil, or one of the service.
  abbrev pub IsOurs : Text → Option Subscription → Type 0
  IsOurs service o =
      (o ≡ none) ⊎ ((s : Subscription) × (o ≡ some s) × (is_foreign ops service s ≡ false))

  -- What a run over the subscriptions leaves: on success all that are wanted, none refused; on an
  -- error, those wanted among the ones before the one that was refused, all of which were ready.
  abbrev pub Outcome :
      Text
      → List (Text × Option H)
      → List (Option Subscription)
      → Option Error
      → List (Subscription × H)
      → List (Subscription × H)
      → Type 0
  Outcome service handlers ss e before after =
      ((e ≡ none)
        × All (IsReady service handlers) ss
        × (after ≡ before ++ wanted service handlers ss))
      ⊎ ((cause : Error) × (passed : List (Option Subscription)) × (refused : Option Subscription)
          × (later : List (Option Subscription)) × (e ≡ some cause)
          × (ss ≡ passed ++ refused ∷ later)
          × All (IsReady service handlers) passed
          × IsOurs service refused
          × (after ≡ before ++ wanted service handlers passed))

  subscribe_each-Outcome :
      (service : Text) (handlers : List (Text × Option H)) (ss : List (Option Subscription))
      (c : Client Q)
      → Outcome service handlers ss
          (subscribe_each ops service handlers ss c).0
          (held c)
          (held (subscribe_each ops service handlers ss c).1)
  unfolding subscribe_each wanted
  subscribe_each-Outcome service handlers [] c = inl (refl, tt, sym (append-nil (held c)))
  subscribe_each-Outcome service handlers (none ∷ ss) c =
      inr (_, [], none, ss, refl, refl, tt, inl refl, sym (append-nil (held c)))
  subscribe_each-Outcome service handlers (some s ∷ ss) c =
      elim (Bool-cases (is_foreign ops service s)) [
        | inl foreign ↦ elim (subscribe_each-Outcome service handlers ss c) [
          | inl (went, ready, all) ↦
              inl (ground arith, ((s, refl, inl foreign), ready), ground arith)
          | inr (cause, passed, refused, later, failed, split, ready, of_service, holds) ↦ inr (
            cause,
            some s ∷ passed,
            refused,
            later,
            ground arith,
            ap (◌∷◌ (some s)) split,
            ((s, refl, inl foreign), ready),
            of_service,
            ground arith,
          )
        ]
        | inr ours ↦ elim (Option-cases (lookup s.endpoint.method handlers)) [
          | inl missing ↦ inr (
            unknown_endpoint service s.endpoint.method,
            [],
            some s,
            ss,
            ground arith,
            refl,
            tt,
            inr (s, refl, ours),
            ground (arith, append-nil (held c)),
          )
          | inr (h, found) ↦ elim (subscribe_at-cases s h c) [
            | inr (cause, failed, kept) ↦ inr (
              subscribe_service_failed service s.endpoint.method s.topic cause,
              [],
              some s,
              ss,
              ground arith,
              refl,
              tt,
              inr (s, refl, ours),
              ground (arith, append-nil (held c)),
            )
            | inl (h', given, topic, went, grown) ↦
                elim (subscribe_each-Outcome service handlers ss
                  (subscribe_at ops (some s) h c).1) [
                    | inl (went', ready, all) ↦ inl (
                      ground arith,
                      ((s, refl, inr (topic, (h', found ∙ ap some given))), ready),
                      ground (
                        arith,
                        append_assoc (held c) ((s, h') ∷ []) (wanted service handlers ss),
                      ),
                    )
                    | inr (cause, passed, refused, later, failed, split, ready, of_service, holds) ↦
                        inr (
                          cause,
                          some s ∷ passed,
                          refused,
                          later,
                          ground arith,
                          ap (◌∷◌ (some s)) split,
                          ((s, refl, inr (topic, (h', found ∙ ap some given))), ready),
                          of_service,
                          ground (
                            arith,
                            append_assoc (held c) ((s, h') ∷ []) (wanted service handlers passed),
                          ),
                        )
                  ]
          ]
        ]
      ]

  -- `SubscribeService` on a client with a queue: when it returns nil, each listed subscription is
  -- another service's, or has a topic and a handler, and the queue holds, after what it held, every
  -- subscription for the service with its method's handler, in the order of the list. When it returns
  -- an error, the list splits into subscriptions that are all another service's or have a topic and a
  -- handler, one that is nil or of the service, and the rest; and the queue holds, after what it held,
  -- the service's subscriptions of the first part and no other.
  pub subscribe_service_lem :
      (service : Text) (handlers : List (Text × Option H)) (c : Client Q) (q : Q)
      → c.queue ≡ some q
      → (c' : Client Q) × ((subscribe_service ops service handlers (some c)).1 ≡ some c')
        × Outcome service handlers c.subscriptions
            (subscribe_service ops service handlers (some c)).0
            (ops.accepted q)
            (held c')
  unfolding subscribe_service
  subscribe_service_lem service handlers c q has = (
    (subscribe_each ops service handlers c.subscriptions c).1,
    ground arith,
    elim (subscribe_each-Outcome service handlers c.subscriptions c) [
      | inl (went, ready, all) ↦ inl (ground arith, ready, ground arith)
      | inr (cause, passed, refused, later, failed, split, ready, of_service, holds) ↦
          inr (cause, passed, refused, later, ground arith, split, ready, of_service, ground arith)
    ],
  )
