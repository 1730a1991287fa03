-- ===== src/Messaging/Nats/Queue/Accepts.antt =====
-- `natsQueue` is a queue as the client needs it, and what `Close` does to it.
use mathlib.Core.Path.{subst}
use finokit.Base.{
  Text, All, ◌⊎◌, Option-cases, List, [], ◌∷◌, ◌++◌, map, Option, none, some, true, false, ◌≡◌,
  refl, ap, inl, inr, arith, Bool-cases, Result-cases, is_empty, trim_space,
}
use finokit.Messaging.Shared.{Error, outside, joined, Subscription, Message, validate}
use finokit.Messaging.Client.{Queue}
use finokit.Messaging.Nats.Server.{Server}
use finokit.Messaging.Nats.Open.{open_configured}
use finokit.Messaging.Nats.Queue.{
  Held, Context, State, add_subscription, subscribe, publish, close, close_body, join_all,
  unsubscribe_all,
}

module _ (v : Server) (H : Type 0) where
  -- The callbacks of the subscriptions that the queue holds.
  abbrev pub callbacks : State v H → List (Subscription × H)
  callbacks q = map (λ held. held.callback) q.subscriptions

  map-append :
      (hs : List (Held v.Sub H)) (h : Held v.Sub H)
      → map (λ held. held.callback) (hs ++ h ∷ [])
        ≡ map (λ held. held.callback) hs ++ h.callback ∷ []
  map-append [] h = refl
  map-append (g ∷ hs) h = ap (◌∷◌ g.callback) (map-append hs h)

  pub subscribe_accepts :
      (s : Subscription) (h : H) (q : State v H)
      → (subscribe v H (some s) (some h) q).0 ≡ none
      → callbacks (subscribe v H (some s) (some h) q).1 ≡ callbacks q ++ (s, h) ∷ []
  unfolding subscribe validate add_subscription
  subscribe_accepts s h q went = elim (Bool-cases (is_empty (trim_space s.topic))) [
    | inl empty ↦ absurd (ground arith)
    | inr named ↦ elim (Result-cases (open_configured v q.jet_stream s q.world).0) [
      | inr (e, failed) ↦ absurd (ground arith)
      | inl (sub, opened) ↦
          ground (arith, map-append q.subscriptions (record { sub = sub; callback = (s, h) }))
    ]
  ]

  pub subscribe_refuses :
      (s : Subscription) (h : H) (q : State v H) (e : Error)
      → (subscribe v H (some s) (some h) q).0 ≡ some e
      → callbacks (subscribe v H (some s) (some h) q).1 ≡ callbacks q
  unfolding subscribe validate
  subscribe_refuses s h q e failed = elim (Bool-cases (is_empty (trim_space s.topic))) [
    | inl empty ↦ ground arith
    | inr named ↦ elim (Result-cases (open_configured v q.jet_stream s q.world).0) [
      | inr (e', refused) ↦ ground arith
      | inl (sub, opened) ↦ absurd (ground arith)
    ]
  ]

  -- `natsQueue` as the client's Queue.
  abbrev pub nats_queue : Queue (State v H) H (Option Context) (Option Message)
  nats_queue = record {
    subscribe_to = λ s h q. subscribe v H (some s) (some h) q;
    publish_on = publish v H;
    close_queue = close v H;
    accepted = callbacks;
    subscribe_accepts = subscribe_accepts;
    subscribe_refuses = subscribe_refuses;
  }

  -- An `Unsubscribe` of one of some subscriptions fails.
  abbrev pub HasFailed : List (Held v.Sub H) → Type 0
  HasFailed ss =
      (before : List (Held v.Sub H)) × (s : Held v.Sub H) × (after : List (Held v.Sub H)) × (ss
        ≡ before ++ s ∷ after)
      × ((w : v.World) × (e : Text) × ((v.unsubscribe s.sub w).0 ≡ some e))

  unsubscribe_all_keeps :
      (ss : List (Held v.Sub H)) (t : v.Sub) (w : v.World)
      → v.is_ended w t ≡ true
      → v.is_ended (unsubscribe_all v H ss w).1 t ≡ true
  unfolding unsubscribe_all
  unsubscribe_all_keeps [] t w ended = ended
  unsubscribe_all_keeps (s ∷ ss) t w ended =
      unsubscribe_all_keeps ss t (v.unsubscribe s.sub w).1 (v.unsubscribe_keeps s.sub t w ended)

  unsubscribe_all-cases :
      (ss : List (Held v.Sub H)) (w : v.World)
      → (((unsubscribe_all v H ss w).0 ≡ [])
          × All (λ (s : Held v.Sub H). v.is_ended (unsubscribe_all v H ss w).1 s.sub ≡ true) ss)
        ⊎ ((e : Error) × (es : List Error) × ((unsubscribe_all v H ss w).0 ≡ e ∷ es) × HasFailed ss)
  unfolding unsubscribe_all
  unsubscribe_all-cases [] w = inl (refl, tt)
  unsubscribe_all-cases (s ∷ ss) w =
      let w₁ = (v.unsubscribe s.sub w).1 in
      elim (Option-cases (v.unsubscribe s.sub w).0) [
        | inr (x, failed) ↦ inr (
          outside x,
          (unsubscribe_all v H ss w₁).0,
          ground arith,
          ([], s, ss, refl, (w, x, failed)),
        )
        | inl went ↦ elim (unsubscribe_all-cases ss w₁) [
          | inl (fine, all) ↦ inl (
            ground arith,
            (unsubscribe_all_keeps ss s.sub w₁ (v.unsubscribe_ends s.sub w went), all),
          )
          | inr (e, es, failed, (before, t, after, split, bad)) ↦
              inr (e, es, ground arith, (s ∷ before, t, after, ap (◌∷◌ s) split, bad))
        ]
      ]

  still_ended :
      (ss : List (Held v.Sub H)) (w : v.World)
      → All (λ (s : Held v.Sub H). v.is_ended w s.sub ≡ true) ss
      → All (λ (s : Held v.Sub H). v.is_ended (v.disconnect w) s.sub ≡ true) ss
  still_ended [] w h = tt
  still_ended (s ∷ ss) w (ended, h) = (v.disconnect_keeps s.sub w ended, still_ended ss w h)

  -- What `Close` of an open queue leaves.
  abbrev pub IsClosed : State v H → Type 0
  IsClosed q =
      let after = (close v H q).1 in
      ((((close v H q).0 ≡ none)
          × All (λ (s : Held v.Sub H). v.is_ended after.world s.sub ≡ true) q.subscriptions)
        ⊎ ((e : Error) × ((close v H q).0 ≡ some e) × HasFailed q.subscriptions))
      × (after.subscriptions ≡ [])
      × (after.stopped ≡ true)
      × (close v H after ≡ close v H q)

  join_all-some : (e : Error) (es : List Error) → (f : Error) × (join_all (e ∷ es) ≡ some f)
  join_all-some e es = elim (Option-cases (join_all es)) [
    | inl alone ↦ (e, ground arith)
    | inr (f, more) ↦ (joined e f, ground arith)
  ]

  -- `Close` of a queue that is not closed: either it returns nil, and every subscription that the queue
  -- held has ended, or it returns an error, and an Unsubscribe of one of them can fail. The queue holds
  -- none then, its fetch loops are told to stop, and a second call returns the same and changes nothing.
  pub close_lem : (q : State v H) → q.closed ≡ false → IsClosed q
  unfolding close close_body
  close_lem q fresh = (
    elim (unsubscribe_all-cases q.subscriptions q.world) [
      | inl (fine, all) ↦ inl (
        ground arith,
        subst (λ w. All (λ (s : Held v.Sub H). v.is_ended w s.sub ≡ true) q.subscriptions)
            {x = v.disconnect (unsubscribe_all v H q.subscriptions q.world).1} (ground arith)
            (still_ended q.subscriptions (unsubscribe_all v H q.subscriptions q.world).1 all),
      )
      | inr (e, es, failed, bad) ↦ let (f, one) = join_all-some e es in inr (f, ground arith, bad)
    ],
    ground arith,
    ground arith,
    ground arith,
  )
