-- ===== src/Pagination/Cursor.antt =====
-- pagination/cursor.go. AES-GCM, Base64, JSON, SHA-256 and the random source are not in the
-- repository: they are the fields of `Services` and of the cipher that it builds. A run of
-- `encode` takes what the random source delivers as an argument.
pub mod RoundTrip
pub mod Rejects
use finokit.Base.{
  ℕ, ◌==◌, List, [], ◌++◌, ◌||◌, not, Option, none, some, Result, ok, err, ◌>>=◌, ◌>>◌, refuse_if,
  or_fail, ℤ, pos, ltb_ℤ, eqb_ℤ, ltb, Text, text_eq, length, take, drop, is_empty, if◌then◌else◌,
}

abbrev pub Bytes : Type 0
Bytes = List ℕ

pub data Error : Type 0 where
  invalid_page_token key_length create_cipher create_cipher_mode decode_key : Error
  marshal_token generate_nonce marshal_binding invalid_page_size : Error

pub record Cursor : Type 0 where
  pub offset : ℤ
  pub position : Text
  pub binding : Text

-- `cipher.AEAD`
pub record Aead : Type 0 where
  pub nonce_size : ℕ
  pub seal : Bytes → Bytes → Bytes
  pub unseal : Bytes → Bytes → Option Bytes

-- `gcm` is nil in a codec that `NewCursorCodec` did not build.
pub record CursorCodec : Type 0 where
  pub gcm : Option Aead

-- What the packages outside the repository provide.
pub record Services : Type 1 where
  pub Scope : Type 0
  pub Block : Type 0
  pub new_cipher : Bytes → Option Block
  pub new_gcm : Block → Option Aead
  pub marshal : Cursor → Option Bytes
  pub unmarshal : Bytes → Option Cursor
  pub marshal_scope : Text → Scope → Option Bytes
  pub sha256 : Bytes → Bytes
  pub base64_url : Bytes → Text
  pub base64_url_decode : Text → Option Bytes
  pub base64_std_decode : Text → Option Bytes
  pub base64_raw_std_decode : Text → Option Bytes

-- A `*CursorCodec` with its cipher, if neither is nil.
abbrev pub cipher_of : Option CursorCodec → Option Aead
cipher_of none = none
cipher_of (some c) = c.gcm

-- What `NewCursorCodec` returns for a cipher.
abbrev pub codec_of : Aead → CursorCodec
codec_of g = record { gcm = some g }

-- `io.ReadFull(rand.Reader, nonce)` for a buffer of the given length
abbrev pub Random : Type 0
Random = ℕ → Option Bytes

module _ (s : Services) where
  unfoldable pub new_cursor_codec : Bytes → Result Error CursorCodec
  new_cursor_codec key = do
    refuse_if (not (length key == 32)) key_length
    block ← or_fail (s.new_cipher key) create_cipher
    gcm ← or_fail (s.new_gcm block) create_cipher_mode
    ok (codec_of gcm)

  -- Padded Base64 is tried first, then unpadded.
  unfoldable pub new_cursor_codec_from_base64 : Text → Result Error CursorCodec
  unfolding new_cursor_codec
  new_cursor_codec_from_base64 encoded = elim (s.base64_std_decode encoded) [
    | some key ↦ new_cursor_codec key
    | none ↦ do key ← or_fail (s.base64_raw_std_decode encoded) decode_key; new_cursor_codec key
  ]

  unfoldable pub encode : Option CursorCodec → Random → Cursor → Result Error Text
  encode codec random cursor = do
    gcm ← or_fail (cipher_of codec) invalid_page_token
    refuse_if (ltb_ℤ cursor.offset (pos 0)) invalid_page_token
    payload ← or_fail (s.marshal cursor) marshal_token
    nonce ← or_fail (random gcm.nonce_size) generate_nonce
    ok (s.base64_url (nonce ++ gcm.seal nonce payload))

  unfoldable pub decode : Option CursorCodec → Text → Text → Result Error Cursor
  decode codec token binding = do
    gcm ← or_fail (cipher_of codec) invalid_page_token
    ciphertext ← or_fail (s.base64_url_decode token) invalid_page_token
    refuse_if (ltb (length ciphertext) gcm.nonce_size) invalid_page_token
    payload ←
        or_fail (gcm.unseal (take gcm.nonce_size ciphertext) (drop gcm.nonce_size ciphertext))
          invalid_page_token
    decoded ← or_fail (s.unmarshal payload) invalid_page_token
    refuse_if (ltb_ℤ decoded.offset (pos 0)) invalid_page_token
    refuse_if (not (text_eq decoded.binding binding)) invalid_page_token
    ok decoded

  unfoldable pub encode_offset : Option CursorCodec → Random → ℤ → Text → Result Error Text
  encode_offset codec random offset binding =
      encode codec random (record { offset = offset; position = []; binding = binding })

  -- Every failure of `decode` is reported as an invalid token.
  unfoldable pub decode_offset : Option CursorCodec → Text → Text → Result Error ℤ
  decode_offset codec token binding =
      if is_empty token then ok (pos 0) else elim (decode codec token binding) [
        | err e ↦ err invalid_page_token
        | ok decoded ↦
            if not (is_empty decoded.position) then err invalid_page_token else ok decoded.offset
      ]

  unfoldable pub encode_keyset : Option CursorCodec → Random → Text → Text → Result Error Text
  encode_keyset codec random position binding =
      if is_empty position
      then err invalid_page_token
      else encode codec random (record { offset = pos 0; position = position; binding = binding })

  unfoldable pub decode_keyset : Option CursorCodec → Text → Text → Result Error Text
  decode_keyset codec token binding =
      if is_empty token then ok [] else elim (decode codec token binding) [
        | err e ↦ err invalid_page_token
        | ok decoded ↦
            if is_empty decoded.position || not (eqb_ℤ decoded.offset (pos 0))
            then err invalid_page_token
            else ok decoded.position
      ]

  unfoldable pub bind_scope : Text → s.Scope → Result Error Text
  bind_scope namespace value = do
    payload ← or_fail (s.marshal_scope namespace value) marshal_binding
    ok (s.base64_url (s.sha256 payload))
