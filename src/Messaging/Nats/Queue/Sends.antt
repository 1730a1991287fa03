-- ===== src/Messaging/Nats/Queue/Sends.antt =====
-- The requests that `Publish` of the NATS queue sends.
use mathlib.Core.List.{append-nil, append_assoc}
use finokit.Base.{
  List, [], ◌∷◌, ◌++◌, Option, none, some, Bool, false, Text, ◌≡◌, refl, sym, ap, ◌⊎◌, inl, inr,
  arith, All, Bool-cases, Option-cases, is_empty, if◌then◌else◌,
}
use finokit.Messaging.Shared.{Error, Message, marshal_failed, publish_failed}
use finokit.Messaging.Nats.Server.{Server, Request}
use finokit.Messaging.Nats.Queue.{Context, State, publish_one, publish_each, publish}

module _ (v : Server) (H : Type 0) where
  -- The request for a message.
  unfoldable pub request_of : Bool → Bool → Text → Message → Text → Request
  request_of jet deadline topic m payload =
      if jet
      then record {
        topic = topic;
        payload = payload;
        message_id = if is_empty m.id then none else some m.id;
        has_deadline = deadline;
      }
      else record { topic = topic; payload = payload; message_id = none; has_deadline = false }

  -- The requests of a call of `Publish`.
  unfoldable pub requests : Bool → Bool → Text → List (Option Message) → List Request
  unfolding request_of
  requests jet deadline topic [] = []
  requests jet deadline topic (none ∷ ms) = requests jet deadline topic ms
  requests jet deadline topic (some m ∷ ms) =
      let rest = requests jet deadline topic ms in
      elim (v.marshal m) [
        | none ↦ rest
        | some payload ↦ request_of jet deadline topic m payload ∷ rest
      ]

  requests-some :
      (jet deadline : Bool) (topic payload : Text) (m : Message) (ms : List (Option Message))
      → v.marshal m ≡ some payload
      → requests jet deadline topic (some m ∷ ms)
        ≡ request_of jet deadline topic m payload ∷ requests jet deadline topic ms
  unfolding requests
  requests-some jet deadline topic payload m ms made = rw (requests, made) refl

  -- A message that can be encoded.
  abbrev pub IsEncodable : Option Message → Type 0
  IsEncodable o = (m : Message) × (o ≡ some m) × ((payload : Text) × (v.marshal m ≡ some payload))

  publish_one-cases :
      (deadline : Bool) (topic payload : Text) (m : Message) (q : State v H)
      → let r = request_of q.jet_stream deadline topic m payload in
        ((publish_one v H deadline topic payload m.id q).1.jet_stream ≡ q.jet_stream)
        × ((((publish_one v H deadline topic payload m.id q).0 ≡ none)
              × (v.sent (publish_one v H deadline topic payload m.id q).1.world
                  ≡ v.sent q.world ++ r ∷ []))
            ⊎ ((e : Text) × ((publish_one v H deadline topic payload m.id q).0 ≡ some e)
                × ((v.sent (publish_one v H deadline topic payload m.id q).1.world ≡ v.sent q.world)
                    ⊎ (v.sent (publish_one v H deadline topic payload m.id q).1.world
                        ≡ v.sent q.world ++ r ∷ []))))
  unfolding publish_one request_of
  publish_one-cases deadline topic payload m q =
      let core : Request = record {
        topic = topic;
        payload = payload;
        message_id = none;
        has_deadline = false;
      } in
      let jet : Request = record {
        topic = topic;
        payload = payload;
        message_id = if is_empty m.id then none else some m.id;
        has_deadline = deadline;
      } in
      (
        refl,
        elim (Bool-cases q.jet_stream) [
          | inl on ↦ elim (Option-cases (v.publish_jet jet q.world).0) [
            | inl went ↦ inl (ground arith, ground (arith, v.publish_jet_sends jet q.world went))
            | inr (e, failed) ↦
                inr (e, ground arith, ground (arith, v.publish_jet_fails jet q.world e failed))
          ]
          | inr off ↦ elim (Option-cases (v.publish_core core q.world).0) [
            | inl went ↦ inl (ground arith, ground (arith, v.publish_core_sends core q.world went))
            | inr (e, failed) ↦
                inr (e, ground arith, ground (arith, v.publish_core_fails core q.world e failed))
          ]
        ],
      )

  -- On success, a request for each message. On an error, those for the messages before the one that
  -- failed, and perhaps the one for it.
  abbrev pub Outcome :
      Bool
      → Bool
      → Text
      → List (Option Message)
      → Option Error
      → List Request
      → List Request
      → Type 0
  Outcome jet deadline topic ms e before after =
      ((e ≡ none) × All IsEncodable ms × (after ≡ before ++ requests jet deadline topic ms))
      ⊎ ((cause : Error) × (passed : List (Option Message)) × (failing : Option Message)
          × (later : List (Option Message)) × (e ≡ some cause)
          × (ms ≡ passed ++ failing ∷ later)
          × All IsEncodable passed
          × ((after ≡ before ++ requests jet deadline topic passed)
              ⊎ (after ≡ before ++ requests jet deadline topic (passed ++ failing ∷ []))))

  publish_each-Outcome :
      (deadline : Bool) (topic : Text) (ms : List (Option Message)) (q : State v H)
      → Outcome q.jet_stream deadline topic ms
          (publish_each v H deadline topic ms q).0
          (v.sent q.world)
          (v.sent (publish_each v H deadline topic ms q).1.world)
  unfolding publish_each requests
  publish_each-Outcome deadline topic [] q = inl (refl, tt, sym (append-nil (v.sent q.world)))
  publish_each-Outcome deadline topic (none ∷ ms) q =
      inr (_, [], none, ms, refl, refl, tt, inl (sym (append-nil (v.sent q.world))))
  publish_each-Outcome deadline topic (some m ∷ ms) q = elim (Option-cases (v.marshal m)) [
    | inl bad ↦ inr (
      marshal_failed,
      [],
      some m,
      ms,
      ground arith,
      refl,
      tt,
      inl (ground (arith, append-nil (v.sent q.world))),
    )
    | inr (payload, made) ↦
        let r = request_of q.jet_stream deadline topic m payload in
        let all = λ (l : List (Option Message)).
          requests-some q.jet_stream deadline topic payload m l made in
        let (same, sends) = publish_one-cases deadline topic payload m q in
        elim sends [
          | inr (e, failed, kept) ↦ inr (
            publish_failed e,
            [],
            some m,
            ms,
            ground arith,
            refl,
            tt,
            elim kept [
              | inl nothing ↦ inl (ground (arith, append-nil (v.sent q.world)))
              | inr taken ↦ inr (ground (arith, all []))
            ],
          )
          | inl (went, grown) ↦
              elim (publish_each-Outcome deadline topic ms
                (publish_one v H deadline topic payload m.id q).1) [
                  | inl (went', ready, sends) ↦ inl (
                    ground arith,
                    ((m, refl, (payload, made)), ready),
                    ground (
                      arith,
                      all ms,
                      append_assoc (v.sent q.world) (r ∷ [])
                          (requests q.jet_stream deadline topic ms),
                    ),
                  )
                  | inr (cause, passed, failing, later, failed, split, ready, sends) ↦ inr (
                    cause,
                    some m ∷ passed,
                    failing,
                    later,
                    ground arith,
                    ap (◌∷◌ (some m)) split,
                    ((m, refl, (payload, made)), ready),
                    elim sends [
                      | inl before ↦ inl (
                          ground (
                            arith,
                            all passed,
                            append_assoc (v.sent q.world) (r ∷ [])
                                (requests q.jet_stream deadline topic passed),
                          ))
                      | inr with_it ↦ inr (
                          ground (
                            arith,
                            all (passed ++ failing ∷ []),
                            append_assoc (v.sent q.world) (r ∷ [])
                                (requests q.jet_stream deadline topic (passed ++ failing ∷ [])),
                          ))
                    ],
                  )
                ]
        ]
  ]

  -- `Publish` under a context that is not done: when it returns nil, every message is encodable and
  -- the server was sent, after what it was sent before, one request for each message, in order, with
  -- the message's identifier under JetStream; when it returns an error, the messages split into
  -- encodable ones, the one that failed, and the rest; and the requests sent are those for the first
  -- part, and at most the one for the message that failed besides.
  pub publish_lem :
      (ctx : Context) (topic : Text) (ms : List (Option Message)) (q : State v H)
      → ctx.failure ≡ none
      → Outcome q.jet_stream ctx.has_deadline topic ms
          (publish v H (some ctx) topic ms q).0
          (v.sent q.world)
          (v.sent (publish v H (some ctx) topic ms q).1.world)
  unfolding publish
  publish_lem ctx topic ms q alive = elim (publish_each-Outcome ctx.has_deadline topic ms q) [
    | inl (went, ready, all) ↦ inl (ground arith, ready, ground arith)
    | inr (cause, passed, failing, later, failed, split, ready, sends) ↦
        inr (cause, passed, failing, later, ground arith, split, ready, ground arith)
  ]
