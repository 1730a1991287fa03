-- ===== src/Messaging/Tracing/Tests.antt =====
-- Spans of messages, where an error is its message and the valid text leaves the code point 0 out.
use finokit.Base.{List, [], ◌∷◌, Text, text, ◌≡◌, refl, ◌==◌, if◌then◌else◌, length}
use finokit.Messaging.Tracing.{Sent, published, fails, publish_spans}
use finokit.Messaging.Tracing.Spans.{AllClosed, outcomes, publish_spans-AllClosed}

abbrev to_valid : Text → Text
to_valid [] = []
to_valid (c ∷ s) = let rest = to_valid s in if c == 0 then rest else c ∷ rest

abbrev sent : List (Sent (λ (t : Text). t) to_valid)
sent = published ∷ fails (0 ∷ text "no") ∷ published ∷ []

publish_spans-AllClosed_example :
    AllClosed
      (λ t. t)
      to_valid
      (text "a")
      (outcomes (λ t. t) to_valid sent)
      (publish_spans (λ t. t) to_valid (text "a") sent)
publish_spans-AllClosed_example = publish_spans-AllClosed (λ t. t) to_valid (text "a") sent

two_spans : length (publish_spans (λ t. t) to_valid (text "a") sent) ≡ 2
unfolding publish_spans
two_spans = refl
