-- ===== src/Messaging/Tracing.antt =====
-- messaging/tracing.go: the spans of a message that is published or processed, as what is told of them to
-- OpenTelemetry. `strings.ToValidUTF8` is an argument, and an error is one with a message.
pub mod Spans
mod Tests
use finokit.Base.{
  List, [], ◌∷◌, ◌++◌, Option, none, some, Bool, true, false, Text, text, text_eq, if◌then◌else◌,
}

-- An error of the caller's, or `sanitizedError`: its cause and its message.
pub data Failure (E : Type 0) : Type 0 where
  original : E → Failure E
  sanitized : E → Text → Failure E

-- What a span is told after its start: `RecordError`, `SetStatus` with codes.Error, and `End`.
pub data Event (E : Type 0) : Type 0 where
  recorded : Failure E → Event E
  status : Text → Event E
  ended : Event E

pub data Kind : Type 0 where
  producer consumer : Kind

pub record Span (E : Type 0) : Type 0 where
  pub name : Text
  pub kind : Kind
  pub attributes : List (Text × Text)
  pub events : List (Event E)

module _ {E : Type 0} (error_text : E → Text) where
  -- `Error` and `Unwrap`
  unfoldable pub message_of : Failure E → Text
  message_of (original e) = error_text e
  message_of (sanitized e message) = message

  unfoldable pub unwrap : Failure E → Option E
  unwrap (original e) = none
  unwrap (sanitized e message) = some e

module _ {E : Type 0} (error_text : E → Text) (to_valid : Text → Text) where
  -- `telemetryString`
  abbrev pub telemetry_string : Text → Text
  telemetry_string value = to_valid value

  unfoldable pub start_span : Text → Text → Kind → Span E
  start_span operation topic kind = record {
    name = operation ++ text " " ++ telemetry_string topic;
    kind = kind;
    attributes =
        (text "messaging.system", text "nats")
        ∷ (text "messaging.destination.name", telemetry_string topic)
        ∷ [];
    events = [];
  }

  unfoldable pub start_producer : Text → Span E
  unfolding start_span
  start_producer topic = start_span (text "publish") topic producer

  unfoldable pub start_consumer : Text → Span E
  unfolding start_span
  start_consumer topic = start_span (text "process") topic consumer

  unfoldable pub record_span_error : Option E → Span E → Span E
  unfolding text_eq
  record_span_error none span = span
  record_span_error (some e) span =
      let message = telemetry_string (error_text e) in
      let failure : Failure E =
        if text_eq message (error_text e) then original e else sanitized e message in
      record span { events = span.events ++ (recorded failure ∷ status message ∷ []) }

  unfoldable pub end_span : Option E → Span E → Span E
  unfolding record_span_error
  end_span e span =
      let told = record_span_error e span in record told { events = told.events ++ ended ∷ [] }

  -- What comes of a message in the loop of `Publish` in messaging/nats.go: it is nil, it or its publishing
  -- fails, or it is published.
  pub data Sent : Type 0 where
    nil_message published : Sent
    fails : E → Sent

  -- The spans of that loop, which ends at the first message that is nil or fails.
  unfoldable pub publish_spans : Text → List Sent → List (Span E)
  unfolding start_producer end_span
  publish_spans topic [] = []
  publish_spans topic (nil_message ∷ ms) = []
  publish_spans topic (fails e ∷ ms) = end_span (some e) (start_producer topic) ∷ []
  publish_spans topic (published ∷ ms) =
      end_span none (start_producer topic) ∷ publish_spans topic ms

  -- The span of a message that the callback of `Subscribe` gets, which it ends in any case.
  unfoldable pub process_span : Text → Option E → Span E
  unfolding start_consumer record_span_error
  process_span topic e =
      let told = record_span_error e (start_consumer topic) in
      record told { events = told.events ++ ended ∷ [] }
