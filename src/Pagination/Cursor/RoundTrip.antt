-- ===== src/Pagination/Cursor/RoundTrip.antt =====
-- Tokens of pagination/cursor.go read back.
use Prim.Native.Nat.{ℕ, ◌<◌}
use finokit.Base.{
  ◌≡◌, refl, sym, ap, ◌∙◌, inl, inr, false, [], ◌∷◌, ◌++◌, Option, none, some, ok, err, arith, ℤ,
  pos, ltb_ℤ, Text, length, length-append, take-append, drop-append, is_empty, text_eq,
  Option-cases, if◌then◌else◌, ltb,
}
use finokit.Pagination.Cursor.{
  Bytes, Cursor, Aead, codec_of, Services, Random, encode, decode, encode_offset, decode_offset,
  encode_keyset, decode_keyset, invalid_page_token,
}

-- What the code relies on of the packages outside the repository: JSON and Base64 read back what
-- they wrote, and the empty text is the Base64 of no bytes.
pub record CodecLaws (s : Services) : Type 0 where
  pub unmarshal-marshal : (c : Cursor) (p : Bytes) → s.marshal c ≡ some p → s.unmarshal p ≡ some c
  pub decode-base64 : (b : Bytes) → s.base64_url_decode (s.base64_url b) ≡ some b
  pub decode-nil : s.base64_url_decode [] ≡ some []

-- AES-GCM under one key: a nonce is not empty, and opening undoes sealing.
pub record CipherLaws (g : Aead) : Type 0 where
  pub nonce_pos : 0 < g.nonce_size
  pub unseal-seal : (n p : Bytes) → length n ≡ g.nonce_size → g.unseal n (g.seal n p) ≡ some p

-- `io.ReadFull` fills the whole buffer, or fails.
abbrev pub FillsBuffer : Random → Type 0
FillsBuffer random = (n : ℕ) (b : Bytes) → random n ≡ some b → length b ≡ n

measure : Option Bytes → ℕ
measure none = 0
measure (some b) = length b

module _ (s : Services) (laws : CodecLaws s) (g : Aead) (cipher : CipherLaws g) (random : Random)
    (full : FillsBuffer random) where
  -- The bytes behind a token that `encode` returned.
  encode-eq-ok :
      (c : Cursor) (token : Text)
      → encode s (some (codec_of g)) random c ≡ ok token
      → (p n : Bytes) × (s.marshal c ≡ some p)
        × (random g.nonce_size ≡ some n)
        × (token ≡ s.base64_url (n ++ g.seal n p))
        × (ltb_ℤ c.offset (pos 0) ≡ false)
  unfolding encode
  encode-eq-ok c token h = elim (Option-cases (s.marshal c)) [
    | inl e ↦ absurd (ground arith)
    | inr (p, ep) ↦ elim (Option-cases (random g.nonce_size)) [
      | inl e ↦ absurd (ground arith)
      | inr (n, en) ↦ (p, n, ep, en, ground arith, ground arith)
    ]
  ]

  decode-sealed :
      (n p : Bytes) (c : Cursor) (binding : Text)
      → length n ≡ g.nonce_size
      → s.unmarshal p ≡ some c
      → ltb_ℤ c.offset (pos 0) ≡ false
      → decode s (some (codec_of g)) (s.base64_url (n ++ g.seal n p)) binding
        ≡ (if text_eq c.binding binding then ok c else err invalid_page_token)
  unfolding decode
  decode-sealed n p c binding size parsed checked =
      let long_enough : ltb (length (n ++ g.seal n p)) g.nonce_size ≡ false =
        ground (arith, length-append n (g.seal n p)) in
      rw
        (
          laws.decode-base64 (n ++ g.seal n p),
          long_enough,
          take-append n (g.seal n p) size,
          drop-append n (g.seal n p) size,
          cipher.unseal-seal n p size,
          parsed,
          checked,
        )
        (ground arith)

  pub decode-encode :
      (c : Cursor) (token binding : Text)
      → encode s (some (codec_of g)) random c ≡ ok token
      → decode s (some (codec_of g)) token binding
        ≡ (if text_eq c.binding binding then ok c else err invalid_page_token)
  decode-encode c token binding h =
      let (p, n, marshalled, drawn, spelled, checked) = encode-eq-ok c token h in
      rw spelled (
        decode-sealed n p c binding (full g.nonce_size n drawn)
          (laws.unmarshal-marshal c p marshalled) checked)

  pub encode-ne-nil :
      (c : Cursor) (token : Text)
      → encode s (some (codec_of g)) random c ≡ ok token
      → is_empty token ≡ false
  unfolding measure
  encode-ne-nil c [] h =
      let (p, n, _, drawn, spelled, _) = encode-eq-ok c [] h in
      let same : some [] ≡ some (n ++ g.seal n p) =
        sym laws.decode-nil
        ∙ ap s.base64_url_decode spelled
        ∙ laws.decode-base64 (n ++ g.seal n p) in
      absurd (
        omega (
          arith,
          cipher.nonce_pos,
          full g.nonce_size n drawn,
          length-append n (g.seal n p),
          ap measure same,
        ))
  encode-ne-nil c (x ∷ token) h = refl

  -- A page token made for an offset reads back as that offset under the binding that it was made
  -- for, and as an invalid token under any other.
  pub decode_offset-encode_offset :
      (offset : ℤ) (binding other token : Text)
      → encode_offset s (some (codec_of g)) random offset binding ≡ ok token
      → decode_offset s (some (codec_of g)) token other
        ≡ (if text_eq binding other then ok offset else err invalid_page_token)
  unfolding encode_offset decode_offset
  decode_offset-encode_offset offset binding other token h =
      ground (arith, encode-ne-nil _ token h, decode-encode _ token other h)

  -- A page token made for a position reads back as that position under the binding that it was
  -- made for, and as an invalid token under any other.
  pub decode_keyset-encode_keyset :
      (position binding other token : Text)
      → encode_keyset s (some (codec_of g)) random position binding ≡ ok token
      → decode_keyset s (some (codec_of g)) token other
        ≡ (if text_eq binding other then ok position else err invalid_page_token)
  unfolding encode_keyset decode_keyset
  decode_keyset-encode_keyset [] binding other token h = cc
  decode_keyset-encode_keyset (x ∷ position) binding other token h =
      ground (arith, encode-ne-nil _ token h, decode-encode _ token other h)

  -- A token of one kind is never accepted as the other kind, whatever the binding: an offset token
  -- is an invalid keyset token, and a keyset token an invalid offset token.
  pub kinds_are_apart :
      (offset : ℤ) (position binding other t u : Text)
      → encode_offset s (some (codec_of g)) random offset binding ≡ ok t
      → encode_keyset s (some (codec_of g)) random position binding ≡ ok u
      → (decode_keyset s (some (codec_of g)) t other ≡ err invalid_page_token)
        × (decode_offset s (some (codec_of g)) u other ≡ err invalid_page_token)
  unfolding encode_offset decode_offset encode_keyset decode_keyset
  kinds_are_apart offset [] binding other t u h k = cc
  kinds_are_apart offset (x ∷ position) binding other t u h k = (
    ground (arith, encode-ne-nil _ t h, decode-encode _ t other h),
    ground (arith, encode-ne-nil _ u k, decode-encode _ u other k),
  )
