-- ===== src/Messaging/Nats/Streams.antt =====
-- `ensureStreams` and `ensureStream` of messaging/nats.go.
pub mod Ensured
use finokit.Base.{
  List, [], ◌∷◌, Option, none, some, Bool, true, false, Text, text_eq, is_empty, trim_space,
  if◌then◌else◌, ok, err, Result,
}
use finokit.Messaging.Shared.{
  Error, nil_stream, empty_stream_name, empty_stream_subjects, ensure_stream_failed, outside,
  Stream,
}
use finokit.Messaging.Nats.Server.{Server, StreamConfig, Added, added, in_use, not_added}

-- `slices.Equal`
unfoldable pub equal_subjects : List Text → List Text → Bool
equal_subjects [] [] = true
equal_subjects [] (_ ∷ _) = false
equal_subjects (_ ∷ _) [] = false
equal_subjects (s ∷ ss) (t ∷ ts) =
    let rest = equal_subjects ss ts in if text_eq s t then rest else false

-- The subjects without their blank ones.
unfoldable pub trim_subjects : List Text → List Text
unfolding trim_space
trim_subjects [] = []
trim_subjects (s ∷ ss) =
    let rest = trim_subjects ss in if is_empty (trim_space s) then rest else trim_space s ∷ rest

module _ (v : Server) where
  unfoldable pub ensure_stream : Text → List Text → v.World → Option Text × v.World
  unfolding equal_subjects
  ensure_stream name subjects w =
      let (first, w₁) = v.add_stream name subjects w in
      elim first [
        | added ↦ (none, w₁)
        | not_added e ↦ (some e, w₁)
        | in_use ↦
            let (info, w₂) = v.stream_info name w₁ in
            elim info [
              | err e ↦ (some e, w₂)
              | ok config ↦
                  if equal_subjects config.subjects subjects
                  then (none, w₂)
                  else v.update_stream (record config { subjects = subjects }) w₂
            ]
      ]

  unfoldable pub ensure_streams : List (Option Stream) → v.World → Option Error × v.World
  unfolding ensure_stream trim_subjects trim_space
  ensure_streams [] w = (none, w)
  ensure_streams (none ∷ ss) w = (some nil_stream, w)
  ensure_streams (some s ∷ ss) w = elim (is_empty (trim_space s.name)) [
    | true ↦ (some empty_stream_name, w)
    | false ↦ elim (is_empty (trim_subjects s.subjects)) [
      | true ↦ (some empty_stream_subjects, w)
      | false ↦
          let (e, w') = ensure_stream (trim_space s.name) (trim_subjects s.subjects) w in
          elim e [
            | some cause ↦ (some (ensure_stream_failed (trim_space s.name) cause), w')
            | none ↦ ensure_streams ss w'
          ]
    ]
  ]
