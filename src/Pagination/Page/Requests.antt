-- ===== src/Pagination/Page/Requests.antt =====
-- What `Resolve` of pagination/page.go promises of a list request.
use finokit.Base.{
  ◌≡◌, refl, inl, inr, ok, err, arith, ℤ, zero, suc, ltb, ◌⊎◌, Bool-cases, pos, negsuc, Option,
  some, ◌≤ℤ◌, Text, Result-cases, text_eq_refl,
}
use finokit.Pagination.Cursor.{
  Aead, CursorCodec, codec_of, Services, Random, encode_offset, decode_offset, bind_scope,
  invalid_page_size,
}
use finokit.Pagination.Cursor.RoundTrip.{
  CodecLaws, CipherLaws, FillsBuffer, decode_offset-encode_offset,
}
use finokit.Pagination.Page.{normalize_page_size, resolve}

-- A negative page size is refused; any other is answered by a size from 1 to 1000, which is the
-- one asked for where that lies in the range, 50 for 0, and 1000 above the range.
pub normalize_page_size_lem :
    (n : ℤ)
    → ((n ≤ℤ negsuc 0) × (normalize_page_size n ≡ err invalid_page_size))
      ⊎ ((n ≡ pos 0) × (normalize_page_size n ≡ ok (pos 50)))
      ⊎ ((pos 1 ≤ℤ n) × (n ≤ℤ pos 1000) × (normalize_page_size n ≡ ok n))
      ⊎ ((pos 1001 ≤ℤ n) × (normalize_page_size n ≡ ok (pos 1000)))
unfolding normalize_page_size
normalize_page_size_lem (negsuc n) = inl (omega arith, ground arith)
normalize_page_size_lem (pos zero) = inr (inl (refl, refl))
normalize_page_size_lem (pos (suc n)) = elim (Bool-cases (ltb 1000 (suc n))) [
  | inl e ↦ inr (inr (inr (ground arith, ground arith)))
  | inr e ↦ inr (inr (inl (omega arith, ground arith, ground arith)))
]

module _ (s : Services) where
  -- A request that `resolve` accepts has the binding of its namespace and scope, the offset that
  -- its token holds under that binding, and a page size from 1 to 1000.
  pub resolve_sound :
      (codec : Option CursorCodec) (token namespace : Text) (page_size : ℤ) (scope : s.Scope)
      (offset size : ℤ) (binding : Text)
      → resolve s codec token page_size namespace scope ≡ ok (offset, size, binding)
      → (bind_scope s namespace scope ≡ ok binding)
        × (decode_offset s codec token binding ≡ ok offset)
        × (pos 1 ≤ℤ size)
        × (size ≤ℤ pos 1000)
        × (pos 0 ≤ℤ page_size)
  unfolding resolve normalize_page_size
  resolve_sound codec token namespace page_size scope offset size binding h =
      elim (Result-cases (bind_scope s namespace scope)) [
        | inr (e, eb) ↦ absurd (ground arith)
        | inl (b, eb) ↦ elim (Result-cases (decode_offset s codec token b)) [
          | inr (e, ed) ↦ absurd (ground arith)
          | inl (o, ed) ↦ ground arith
        ]
      ]

module _ (s : Services) (laws : CodecLaws s) (g : Aead) (cipher : CipherLaws g) (random : Random)
    (full : FillsBuffer random) where
  -- The token that a list call makes under its binding is resolved, by a call with the same
  -- namespace and scope and a page size that is not negative, to the offset it was made for.
  pub resolve-encode_offset :
      (namespace : Text) (scope : s.Scope) (binding token : Text) (offset page_size : ℤ)
      → bind_scope s namespace scope ≡ ok binding
      → encode_offset s (some (codec_of g)) random offset binding ≡ ok token
      → pos 0 ≤ℤ page_size
      → (size : ℤ) × (normalize_page_size page_size ≡ ok size)
        × (resolve s (some (codec_of g)) token page_size namespace scope
            ≡ ok (offset, size, binding))
  unfolding resolve
  resolve-encode_offset namespace scope binding token offset page_size bound made nonneg =
      elim (Result-cases (normalize_page_size page_size)) [
        | inl (size, e) ↦ (
          size,
          e,
          rw (
            bound,
            decode_offset-encode_offset s laws g cipher random full offset binding binding token
                made,
            text_eq_refl binding,
            e,
          ),
        )
        | inr (e, bad) ↦ absurd (unfold normalize_page_size in ground arith)
      ]
