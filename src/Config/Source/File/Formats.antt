-- ===== src/Config/Source/File/Formats.antt =====
-- Which format a file is read in.
use finokit.Base.{
  ℕ, ◌<◌, ◌≤◌, split-Lacks, [], ◌∷◌, ◌++◌, Text, split, split_at, Lacks, length, ◌≡◌, refl, arith,
}
use finokit.Config.Source.File.{last_part, format}

-- The part behind the last separator, and that there is one before it.
last_part-split_at :
    (sep : ℕ) (cur pre ext p : Text)
    → Lacks sep ext
    → last_part p (split_at sep cur (pre ++ sep ∷ ext)) ≡ ext
unfolding split_at split
last_part-split_at sep cur [] ext p h = ground (arith, split-Lacks sep ext h)
last_part-split_at sep cur (c ∷ pre) ext p h = ground (
  arith,
  last_part-split_at sep [] pre ext cur h,
  last_part-split_at sep (cur ++ c ∷ []) pre ext p h,
)

length-split_at : (sep : ℕ) (cur s : Text) → 1 ≤ length (split_at sep cur s)
unfolding split_at
length-split_at sep cur [] = omega arith
length-split_at sep cur (c ∷ s) =
    ground (arith, length-split_at sep [] s, length-split_at sep (cur ++ c ∷ []) s)

length-split_at-append :
    (sep : ℕ) (cur pre ext : Text) → 1 < length (split_at sep cur (pre ++ sep ∷ ext))
unfolding split_at
length-split_at-append sep cur [] ext = ground (arith, length-split_at sep [] ext)
length-split_at-append sep cur (c ∷ pre) ext = ground (
  arith,
  length-split_at-append sep [] pre ext,
  length-split_at-append sep (cur ++ c ∷ []) pre ext,
)

-- The format of a path is what stands behind its last dot.
pub format-append :
    (pre ext encoder : Text) → Lacks b'.' ext → format (pre ++ b'.' ∷ ext) encoder ≡ ext
unfolding format split
format-append pre ext encoder h =
    ground
      (arith, last_part-split_at b'.' [] pre ext encoder h, length-split_at-append b'.' [] pre ext)

-- A path without a dot has the encoder's.
pub format-Lacks : (p encoder : Text) → Lacks b'.' p → format p encoder ≡ encoder
unfolding format
format-Lacks p encoder h = rw (format, split-Lacks b'.' p h) refl
