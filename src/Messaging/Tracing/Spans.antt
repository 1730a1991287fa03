-- ===== src/Messaging/Tracing/Spans.antt =====
-- Which spans there are of the messages, and what they are told.
use finokit.Base.{
  List, [], ◌∷◌, ◌++◌, Option, none, some, Text, text, text_eq, text_eq-eq, ◌≡◌, ◌⊎◌, inl, inr,
  refl, Bool-cases, arith, sym,
}
use finokit.Messaging.Tracing.{
  Failure, original, sanitized, Event, recorded, status, ended, producer, Span, message_of, unwrap,
  start_span, start_producer, start_consumer, record_span_error, end_span, Sent, nil_message,
  published, fails, publish_spans, process_span,
}

module _ {E : Type 0} (error_text : E → Text) (to_valid : Text → Text) where
  -- The error itself, or one that unwraps to it.
  abbrev pub StandsFor : E → Failure E → Type 0
  StandsFor e failure = (failure ≡ original e) ⊎ (unwrap error_text failure ≡ some e)

  -- The span was ended, once and last; where there was an error it was recorded before, with a message
  -- and a status that are the valid text.
  abbrev pub IsClosed : Option E → List (Event E) → Type 0
  IsClosed none events = events ≡ ended ∷ []
  IsClosed (some e) events =
      (failure : Failure E) × (events
        ≡ recorded failure ∷ status (to_valid (error_text e)) ∷ ended ∷ [])
      × StandsFor e failure
      × (message_of error_text failure ≡ to_valid (error_text e))

  recorded-IsClosed :
      (e : E) (span : Span E)
      → span.events ≡ []
      → IsClosed
          (some e)
          ((record_span_error error_text to_valid (some e) span).events ++ ended ∷ [])
  unfolding record_span_error message_of unwrap
  recorded-IsClosed e span fresh =
      elim (Bool-cases (text_eq (to_valid (error_text e)) (error_text e))) [
        | inl same ↦ (
          original e,
          ground arith,
          inl refl,
          sym (text_eq-eq (to_valid (error_text e)) (error_text e) same),
        )
        | inr changed ↦ (sanitized e (to_valid (error_text e)), ground arith, inr refl, refl)
      ]

  end_span-IsClosed :
      (e : Option E) (span : Span E)
      → span.events ≡ []
      → IsClosed e (end_span error_text to_valid e span).events
  unfolding end_span record_span_error
  end_span-IsClosed none span fresh = rw fresh refl
  end_span-IsClosed (some e) span fresh = recorded-IsClosed e span fresh

  -- What came of the messages that the loop got to.
  abbrev pub outcomes : List (Sent error_text to_valid) → List (Option E)
  outcomes [] = []
  outcomes (nil_message ∷ ms) = []
  outcomes (fails e ∷ ms) = some e ∷ []
  outcomes (published ∷ ms) = none ∷ outcomes ms

  abbrev pub AllClosed : Text → List (Option E) → List (Span E) → Type 0
  AllClosed topic [] [] = Unit
  AllClosed topic [] (span ∷ spans) = ⊥
  AllClosed topic (e ∷ es) [] = ⊥
  AllClosed topic (e ∷ es) (span ∷ spans) =
      (span.name ≡ text "publish " ++ to_valid topic)
      × (span.kind ≡ producer)
      × IsClosed e span.events
      × AllClosed topic es spans

  end_span-name :
      (topic : Text) (e : Option E)
      → let span = end_span error_text to_valid e (start_producer error_text to_valid topic) in
        (span.name ≡ text "publish " ++ to_valid topic)
        × (span.kind ≡ producer)
        × IsClosed e span.events
  unfolding end_span record_span_error start_producer start_span
  end_span-name topic none = (refl, refl, refl)
  end_span-name topic (some e) =
      (refl, refl, end_span-IsClosed (some e) (start_producer error_text to_valid topic) refl)

  -- `Publish` makes one span for each message that it gets to and that is not nil, in their order: it is
  -- named after the valid text of the topic, and it is ended once and last; the span of the message that
  -- fails has its error recorded before, as itself or as an error that unwraps to it, whose message, like
  -- the span's status, is the valid text of the error's.
  pub publish_spans-AllClosed :
      (topic : Text) (ms : List (Sent error_text to_valid))
      → AllClosed topic (outcomes ms) (publish_spans error_text to_valid topic ms)
  unfolding publish_spans
  publish_spans-AllClosed topic [] = tt
  publish_spans-AllClosed topic (nil_message ∷ ms) = tt
  publish_spans-AllClosed topic (fails e ∷ ms) =
      let (named, of_producer, closed) = end_span-name topic (some e) in
      (named, of_producer, closed, tt)
  publish_spans-AllClosed topic (published ∷ ms) =
      let (named, of_producer, closed) = end_span-name topic none in
      (named, of_producer, closed, publish_spans-AllClosed topic ms)

  -- The same of the one span of a message that is processed.
  process_span-IsClosed :
      (topic : Text) (e : Option E) → IsClosed e (process_span error_text to_valid topic e).events
  unfolding process_span start_consumer start_span record_span_error
  process_span-IsClosed topic none = refl
  process_span-IsClosed topic (some e) =
      recorded-IsClosed e (start_consumer error_text to_valid topic) refl
