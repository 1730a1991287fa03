-- ===== src/Pagination/Cursor/Rejects.antt =====
-- What `decode` of pagination/cursor.go accepts.
use finokit.Base.{
  ◌≡◌, ◌≤◌, inl, inr, ◌++◌, some, ok, arith, pos, Text, length, take, drop, take-append-drop,
  length-take, ◌≤ℤ◌, text_eq-eq, Option-cases,
}
use finokit.Pagination.Cursor.{Bytes, Cursor, Aead, codec_of, Services, decode}

-- GCM is authenticated: `Open` accepts only what `Seal` made of the same nonce and payload.
abbrev pub IsAuthenticated : Aead → Type 0
IsAuthenticated g = (n c p : Bytes) → g.unseal n c ≡ some p → c ≡ g.seal n p

-- The token is the Base64 of a nonce and of the sealed cursor `c`.
pub record Spells (s : Services) (g : Aead) (token : Text) (c : Cursor) : Type 0 where
  pub nonce : Bytes
  pub payload : Bytes
  pub nonce_length : length nonce ≡ g.nonce_size
  pub decoded : s.base64_url_decode token ≡ some (nonce ++ g.seal nonce payload)
  pub parsed : s.unmarshal payload ≡ some c

module _ (s : Services) (g : Aead) (auth : IsAuthenticated g) where
  open-Spells :
      (token : Text) (c : Cursor) (b p : Bytes)
      → s.base64_url_decode token ≡ some b
      → g.nonce_size ≤ length b
      → g.unseal (take g.nonce_size b) (drop g.nonce_size b) ≡ some p
      → s.unmarshal p ≡ some c
      → Spells s g token c
  open-Spells token c b p eb long opened parsed = record {
    nonce = take g.nonce_size b;
    payload = p;
    nonce_length = length-take g.nonce_size b long;
    decoded = rw (← auth _ _ p opened, take-append-drop g.nonce_size b) eb;
    parsed = parsed;
  }

  -- `decode` accepts only a token that spells a sealed cursor, and returns that cursor; its offset
  -- is not negative and its binding is the one asked for.
  pub decode_sound :
      (token binding : Text) (c : Cursor)
      → decode s (some (codec_of g)) token binding ≡ ok c
      → Spells s g token c × (pos 0 ≤ℤ c.offset) × (c.binding ≡ binding)
  unfolding decode
  decode_sound token binding c h = elim (Option-cases (s.base64_url_decode token)) [
    | inl e ↦ absurd (ground arith)
    | inr (b, eb) ↦ elim (Option-cases (g.unseal (take g.nonce_size b) (drop g.nonce_size b))) [
      | inl e ↦ absurd (ground arith)
      | inr (p, ep) ↦ elim (Option-cases (s.unmarshal p)) [
        | inl e ↦ absurd (ground arith)
        | inr (d, ed) ↦
            let same : d ≡ c = ground arith in
            (
              open-Spells token c b p eb (ground arith) ep (rw same at ed),
              ground arith,
              ground (arith, text_eq-eq c.binding binding),
            )
      ]
    ]
  ]
