-- ===== src/Logs.antt =====
-- logs/trace_logger.go and logs/service.go: the fields of a trace in the entries of a log. The loggers
-- of the core module, and the services over them, are arguments.
pub mod Traced
pub mod Default
mod Tests
use finokit.Base.{
  List, [], ◌∷◌, ◌++◌, Option, none, some, Bool, true, false, ◌||◌, Text, text, text_eq, ℤ, pos,
  ◌+ℤ◌, if◌then◌else◌,
}

-- A logger: one of the core module, or one that adds the trace.
pub data Logger (L : Type 0) : Type 0 where
  plain : L → Logger L
  traced : Logger L → Logger L

pub record Field (V : Type 0) : Type 0 where
  pub key : Text
  pub value : V

pub record Entry (V Rest : Type 0) : Type 0 where
  pub fields : List (Field V)
  pub caller_skip : ℤ
  pub others : Rest

-- `withTrace`; a nil logger is none.
unfoldable pub with_trace : {L : Type 0} → Option (Logger L) → Option (Logger L)
with_trace none = none
with_trace (some (traced l)) = some (traced l)
with_trace (some (plain l)) = some (traced (plain l))

unfoldable pub is_trace_key : Text → Bool
unfolding text_eq
is_trace_key k = text_eq k (text "trace_id") || text_eq k (text "span_id")

module _ {V : Type 0} where
  -- The loop that leaves the fields of an earlier trace out.
  unfoldable pub keep_each : List (Field V) → List (Field V)
  unfolding is_trace_key
  keep_each [] = []
  keep_each (f ∷ fs) = let rest = keep_each fs in if is_trace_key f.key then rest else f ∷ rest

  -- What `Log` hands on; the span is the context's, none where it is not valid.
  unfoldable pub log : {Rest : Type 0} → Option (V × V) → Entry V Rest → Entry V Rest
  unfolding keep_each ◌+ℤ◌
  log none entry = record entry { caller_skip = entry.caller_skip +ℤ pos 1 }
  log (some (trace_id, span_id)) entry = record entry {
    caller_skip = entry.caller_skip +ℤ pos 1;
    fields =
        keep_each entry.fields
        ++ (record { key = text "trace_id"; value = trace_id }
            ∷ record { key = text "span_id"; value = span_id }
            ∷ []);
  }
