-- ===== src/Logs/Tests.antt =====
-- An entry that has a trace already.
use finokit.Base.{[], ◌∷◌, some, ℕ, text, text_eq, pos, ◌≡◌, if◌then◌else◌}
use finokit.Logs.{Entry, log}
use finokit.Logs.Traced.{values_of, log_lem}

abbrev entry : Entry ℕ ℕ
entry = record {
  fields =
      record { key = text "trace_id"; value = 1 } ∷ record { key = text "user"; value = 2 } ∷ [];
  caller_skip = pos 0;
  others = 0;
}

log_lem_example : values_of (text "user") (log (some (7, 8)) entry).fields ≡ (
    if text_eq (text "user") (text "trace_id")
    then 7 ∷ []
    else if text_eq (text "user") (text "span_id")
    then 8 ∷ []
    else values_of (text "user") entry.fields)
log_lem_example = log_lem 7 8 entry (text "user")
