-- ===== src/Logs/Traced.antt =====
-- Which fields an entry of a traced log has.
use mathlib.Core.List.{append-nil}
use finokit.Base.{
  List, [], ◌∷◌, ◌++◌, some, ◌||◌, Text, text, text_eq, text_eq_iff, ◌≡◌, ◌≢◌, refl, ◌∙◌, arith,
  if◌then◌else◌,
}
use finokit.Logs.{Field, Entry, is_trace_key, keep_each, log}

module _ {V : Type 0} where
  -- The values that stand under a key.
  unfoldable pub values_of : Text → List (Field V) → List V
  unfolding text_eq
  values_of k [] = []
  values_of k (f ∷ fs) =
      let rest = values_of k fs in if text_eq f.key k then f.value ∷ rest else rest

  values_of-append :
      (k : Text) (a b : List (Field V)) → values_of k (a ++ b) ≡ values_of k a ++ values_of k b
  unfolding values_of
  values_of-append k [] b = refl
  values_of-append k (f ∷ a) b = ground (arith, values_of-append k a b)

  values_of-keep_each :
      (k : Text) (fs : List (Field V))
      → values_of k (keep_each fs) ≡ (if is_trace_key k then [] else values_of k fs)
  unfolding values_of keep_each
  values_of-keep_each k [] = ground arith
  values_of-keep_each k (f ∷ fs) = ground (arith, values_of-keep_each k fs, text_eq_iff f.key k)

  values_of-pair :
      (k a b : Text) (x y : V)
      → a ≢ b
      → values_of k (record { key = a; value = x } ∷ record { key = b; value = y } ∷ [])
        ≡ (if text_eq k a then x ∷ [] else if text_eq k b then y ∷ [] else [])
  unfolding values_of
  values_of-pair k a b x y apart =
      ground (arith, text_eq_iff k a, text_eq_iff a k, text_eq_iff k b, text_eq_iff b k)

  log_fields :
      (k : Text) (fs : List (Field V)) (a b : Text) (x y : V)
      → a ≢ b
      → is_trace_key k ≡ text_eq k a || text_eq k b
      → values_of k
          (keep_each fs ++ (record { key = a; value = x } ∷ record { key = b; value = y } ∷ []))
        ≡ (if text_eq k a then x ∷ [] else if text_eq k b then y ∷ [] else values_of k fs)
  log_fields k fs a b x y apart keys =
      values_of-append k (keep_each fs)
        (record { key = a; value = x } ∷ record { key = b; value = y } ∷ [])
      ∙ ground (
        arith,
        values_of-keep_each k fs,
        values_of-pair k a b x y apart,
        append-nil (values_of k fs),
      )

  -- An entry that is logged under a valid span has, under the key of the trace and under that of the
  -- span, the identifiers of that span and no others, whatever stood there before, and under every other
  -- key the values that it had, in their order.
  pub log_lem :
      {Rest : Type 0} (trace_id span_id : V) (entry : Entry V Rest) (k : Text)
      → values_of k (log (some (trace_id, span_id)) entry).fields ≡ (
          if text_eq k (text "trace_id")
          then trace_id ∷ []
          else if text_eq k (text "span_id")
          then span_id ∷ []
          else values_of k entry.fields)
  unfolding log is_trace_key
  log_lem trace_id span_id entry k =
      let apart : text "trace_id" ≢ text "span_id" = cc in
      log_fields k entry.fields (text "trace_id") (text "span_id") trace_id span_id apart refl
