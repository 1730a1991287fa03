-- ===== src/Messaging/Endpoint.antt =====
-- messaging/subscriber.go: the handler that decodes a message's request for an endpoint. The decoder and the
-- endpoint are arguments; the endpoint may settle the message, which it finds in its context.
use finokit.Base.{
  List, [], ◌∷◌, Option, none, some, true, false, Text, ◌≡◌, ◌∙◌, ◌⊎◌, Option-cases, inl, inr,
  arith,
}
use finokit.Messaging.Shared.{Subscription}
use finokit.Messaging.SubMessage.{Call, ack, nak, term, HandlerRun, deliver}
use finokit.Messaging.SubMessage.Settles.{settlements, settled_by, deliver_lem}

-- `fmt.Errorf` with the topic, the method and what the decoder says; or the endpoint's error.
pub data Error : Type 0 where
  decode_failed : Text → Text → Text → Error
  endpoint_failed : Text → Error

-- What an endpoint does with a request: the calls on the message, and its error.
pub record Answer : Type 0 where
  pub calls : List Call
  pub error : Option Text

module _ {T : Type 0} (decode : Text → T × Option Text) where
  -- What a handler did: the requests that it asked the endpoint for, the calls on its message, and its
  -- error.
  pub record Served : Type 0 where
    pub asked : List T
    pub calls : List Call
    pub error : Option Error

  -- The function that `JSONEndpoint` returns, on a message whose Data is an argument. The decoder
  -- leaves a request also where it fails.
  unfoldable pub serve : (T → Answer) → Subscription → Text → Served
  serve endpoint s content =
      let (request, failure) = decode content in
      elim failure [
        | some e ↦ record {
          asked = [];
          calls = term ∷ [];
          error = some (decode_failed s.topic s.endpoint.method e);
        }
        | none ↦ record {
          asked = request ∷ [];
          calls = (endpoint request).calls;
          error = elim (endpoint request).error [ none ↦ none | some e ↦ some (endpoint_failed e) ];
        }
      ]

  -- `JSONEndpoint`; of a nil endpoint there is no handler.
  unfoldable pub json_endpoint : Option (T → Answer) → Option (Subscription → Text → Served)
  unfolding serve
  json_endpoint none = none
  json_endpoint (some endpoint) = some (serve endpoint)

  abbrev pub handled : Served → HandlerRun
  handled served = record {
    calls = served.calls;
    failed = elim served.error [ none ↦ false | some _ ↦ true ];
  }

  -- The handler of an endpoint, on a message that JetStream delivers: where the request cannot be
  -- decoded the endpoint is not asked, and the message is terminated, once. Otherwise the endpoint is
  -- asked once, for the decoded request, and the message is settled once: by the endpoint's first
  -- settling call, or, where it makes none, negatively if it fails and by an acknowledgement if not.
  pub deliver-serve :
      (endpoint : T → Answer) (s : Subscription) (content : Text)
      → let served = serve endpoint s content in
        let request = (decode content).0 in
        ((e : Text) × ((decode content).1 ≡ some e)
          × (served.asked ≡ [])
          × (settlements (deliver true true (handled served)) ≡ term ∷ []))
        ⊎ (((decode content).1 ≡ none)
            × (served.asked ≡ request ∷ [])
            × (settlements (deliver true true (handled served))
                ≡ settled_by
                    (endpoint request).calls
                    (elim (endpoint request).error [ none ↦ ack | some _ ↦ nak ])
                  ∷ []))
  unfolding serve settled_by
  deliver-serve endpoint s content =
      let settles = (deliver_lem (handled (serve endpoint s content))).0 in
      elim (Option-cases (decode content).1) [
        | inr (e, bad) ↦ inl (e, bad, ground arith, settles ∙ ground arith)
        | inl good ↦ elim (Option-cases (endpoint (decode content).0).error) [
          | inl fine ↦ inr (good, ground arith, settles ∙ ground arith)
          | inr (e, failed) ↦ inr (good, ground arith, settles ∙ ground arith)
        ]
      ]
