-- ===== src/Messaging/Nats/Streams/Ensured.antt =====
-- What the server keeps for each stream after `ensureStreams`.
use finokit.Base.{
  List, [], ◌∷◌, Option, none, some, true, false, Text, text_eq, text_eq_iff, text_key, is_empty,
  trim_space, if◌then◌else◌, ◌≡◌, refl, ◌⊎◌, inl, inr, arith, Bool-cases, Option-cases,
  Result-cases,
}
use finokit.Messaging.Shared.{Stream}
use finokit.Messaging.Nats.Server.{Server, Added, added, in_use, not_added}
use finokit.Messaging.Nats.Streams.{equal_subjects, trim_subjects, ensure_stream, ensure_streams}

equal_subjects_sound : (a b : List Text) → equal_subjects a b ≡ true → a ≡ b
unfolding equal_subjects
equal_subjects_sound [] [] e = refl
equal_subjects_sound [] (b ∷ bs) e = cc
equal_subjects_sound (a ∷ l) [] e = cc
equal_subjects_sound (a ∷ l) (b ∷ bs) e = ground (arith, text_eq_iff a b, equal_subjects_sound l bs)

Added-cases : (a : Added) → (a ≡ added) ⊎ ((a ≡ in_use) ⊎ ((e : Text) × (a ≡ not_added e)))
Added-cases added = inl refl
Added-cases in_use = inr (inl refl)
Added-cases (not_added e) = inr (inr (e, refl))

-- The subjects that a list of streams asks for a name; the last entry of a name counts.
unfoldable pub requested : List (Option Stream) → Text → Option (List Text)
unfolding trim_space trim_subjects
requested [] n = none
requested (none ∷ ss) n = requested ss n
requested (some s ∷ ss) n = elim (requested ss n) [
  | some subjects ↦ some subjects
  | none ↦ if text_eq (trim_space s.name) n then some (trim_subjects s.subjects) else none
]

module _ (v : Server) where
  add_stream-keeps_lem :
      (name m : Text) (subjects : List Text) (w : v.World)
      → text_eq name m ≡ false
      → v.subjects_of (v.add_stream name subjects w).1 m ≡ v.subjects_of w m
  add_stream-keeps_lem name m subjects w differ =
      v.add_stream_keeps name m subjects w (λ same. ground (arith, text_eq_iff name m))

  -- The stream that is ensured gets its subjects, and the others keep theirs.
  ensure_stream_lem :
      (name m : Text) (subjects : List Text) (w : v.World)
      → (ensure_stream v name subjects w).0 ≡ none
      → v.subjects_of (ensure_stream v name subjects w).1 m
        ≡ (if text_eq name m then some subjects else v.subjects_of w m)
  unfolding ensure_stream
  ensure_stream_lem name m subjects w went =
      let w₁ = (v.add_stream name subjects w).1 in
      let w₂ = (v.stream_info name w₁).1 in
      elim (Added-cases (v.add_stream name subjects w).0) [
        | inl new ↦ elim (Bool-cases (text_eq name m)) [
          | inl same ↦ ground (arith, v.add_stream_sets name subjects w new, text_eq_iff name m)
          | inr differ ↦ ground (arith, add_stream-keeps_lem name m subjects w differ)
        ]
        | inr (inl used) ↦ elim (Result-cases (v.stream_info name w₁).0) [
          | inr (e, failed) ↦ absurd (ground arith)
          | inl (config, told) ↦
              let (named, kept) = v.stream_info_tells name w₁ config told in
              elim (Bool-cases (equal_subjects config.subjects subjects)) [
                | inl same ↦ elim (Bool-cases (text_eq name m)) [
                  | inl this ↦ ground (
                    arith,
                    text_eq_iff name m,
                    v.stream_info_keeps name m w₁,
                    equal_subjects_sound config.subjects subjects,
                  )
                  | inr differ ↦ ground (
                    arith,
                    add_stream-keeps_lem name m subjects w differ,
                    v.stream_info_keeps name m w₁,
                  )
                ]
                | inr changed ↦ elim (Bool-cases (text_eq name m)) [
                  | inl this ↦ ground (
                    arith,
                    text_eq_iff name m,
                    v.update_stream_sets (record config { subjects = subjects }) w₂,
                  )
                  | inr differ ↦ ground (
                    arith,
                    add_stream-keeps_lem name m subjects w differ,
                    v.stream_info_keeps name m w₁,
                    v.update_stream_keeps (record config { subjects = subjects }) m w₂
                        (λ same. ground (arith, text_eq_iff name m)),
                  )
                ]
              ]
        ]
        | inr (inr (e, failed)) ↦ absurd (ground arith)
      ]

  -- When `ensureStreams` returns nil, every stream that it was given has at the server exactly the
  -- subjects of its last entry, trimmed and without blank ones, whether it was new, unchanged or
  -- changed there; every other stream has the subjects it had.
  pub ensure_streams_lem :
      (ss : List (Option Stream)) (w : v.World) (m : Text)
      → (ensure_streams v ss w).0 ≡ none
      → v.subjects_of (ensure_streams v ss w).1 m
        ≡ (elim (requested ss m) [ some subjects ↦ some subjects | none ↦ v.subjects_of w m ])
  unfolding ensure_streams requested
  ensure_streams_lem [] w m went = refl
  ensure_streams_lem (none ∷ ss) w m went = cc
  ensure_streams_lem (some s ∷ ss) w m went =
      let name = trim_space s.name in
      let subjects = trim_subjects s.subjects in
      elim (Bool-cases (is_empty name)) [
        | inl empty ↦ absurd (ground arith)
        | inr named ↦ elim (Bool-cases (is_empty subjects)) [
          | inl empty ↦ absurd (ground arith)
          | inr some_subject ↦ elim (Option-cases (ensure_stream v name subjects w).0) [
            | inr (e, failed) ↦ absurd (ground arith)
            | inl ensured ↦ ground (
              arith,
              ensure_stream_lem name m subjects w ensured,
              ensure_streams_lem ss (ensure_stream v name subjects w).1 m,
            )
          ]
        ]
      ]
