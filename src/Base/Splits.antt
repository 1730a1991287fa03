-- ===== src/Base/Splits.antt =====
-- Splitting at a character what was joined with it.
use Prim.Native.Nat.{ℕ}
use mathlib.Core.Path.{◌≡◌, ap, ◌∙◌}
use mathlib.Core.List.{List, [], ◌∷◌, ◌++◌, append-nil, append_assoc}
use native.Mathlib.Omega.{arith}
use finokit.Base.Lists.{All}
use finokit.Base.Strings.{Text}
use finokit.Base.Search.{split, split_at, join, Lacks}

split_at-Lacks : (sep : ℕ) (cur s : Text) → Lacks sep s → split_at sep cur s ≡ (cur ++ s) ∷ []
unfolding split_at
split_at-Lacks sep cur [] h = ground (arith, append-nil cur)
split_at-Lacks sep cur (c ∷ s) (hc, h) =
    ground (arith, split_at-Lacks sep (cur ++ c ∷ []) s h, append_assoc cur (c ∷ []) s)

split_at-append :
    (sep : ℕ) (cur a s : Text)
    → Lacks sep a
    → split_at sep cur (a ++ sep ∷ s) ≡ (cur ++ a) ∷ split_at sep [] s
unfolding split_at
split_at-append sep cur [] s h = ground (arith, append-nil cur)
split_at-append sep cur (c ∷ a) s (hc, h) =
    ground (arith, split_at-append sep (cur ++ c ∷ []) a s h, append_assoc cur (c ∷ []) a)

-- What lacks the separator is not split.
pub split-Lacks : (sep : ℕ) (s : Text) → Lacks sep s → split s sep ≡ s ∷ []
unfolding split
split-Lacks sep s h = split_at-Lacks sep [] s h

-- Pieces that are joined by the separator, and lack it, are what the split gives back.
pub split-join :
    (sep : ℕ) (p : Text) (ps : List Text)
    → All (Lacks sep) (p ∷ ps)
    → split (join (p ∷ ps) (sep ∷ [])) sep ≡ p ∷ ps
unfolding split join
split-join sep p [] (h, _) = split_at-Lacks sep [] p h
split-join sep p (q ∷ ps) (h, hs) =
    let rest = join (q ∷ ps) (sep ∷ []) in
    ap (split_at sep []) (append_assoc p (sep ∷ []) rest)
    ∙ split_at-append sep [] p rest h
    ∙ ap (◌∷◌ p) (split-join sep q ps hs)
