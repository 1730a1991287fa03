-- ===== src/Pagination/Page.antt =====
-- pagination/page.go and pagination/paginator.go.
pub mod Requests
use finokit.Base.{
  ℕ, List, Option, Result, ok, err, ◌>>=◌, ℤ, pos, ltb_ℤ, eqb_ℤ, Text, if◌then◌else◌,
}
use finokit.Pagination.Cursor.{
  Error, invalid_page_size, Services, CursorCodec, decode_offset, decode_keyset, bind_scope,
}

abbrev pub default_page_size : ℤ
default_page_size = pos 50

abbrev pub max_page_size : ℤ
max_page_size = pos 1000

unfoldable pub normalize_page_size : ℤ → Result Error ℤ
normalize_page_size size =
    if ltb_ℤ size (pos 0)
    then err invalid_page_size
    else if eqb_ℤ size (pos 0)
    then ok default_page_size
    else if ltb_ℤ max_page_size size
    then ok max_page_size
    else ok size

module _ (s : Services) where
  unfoldable pub resolve :
      Option CursorCodec → Text → ℤ → Text → s.Scope → Result Error (ℤ × ℤ × Text)
  resolve codec token page_size namespace scope = do
    binding ← bind_scope s namespace scope
    offset ← decode_offset s codec token binding
    size ← normalize_page_size page_size
    ok (offset, size, binding)

  unfoldable pub resolve_keyset :
      Option CursorCodec → Text → ℤ → Text → s.Scope → Result Error (Text × ℤ × Text)
  resolve_keyset codec token page_size namespace scope = do
    binding ← bind_scope s namespace scope
    position ← decode_keyset s codec token binding
    size ← normalize_page_size page_size
    ok (position, size, binding)

-- `Page[T]`, with `TotalCount` an int32
pub record Page {ℓ} (T : Type ℓ) : Type ℓ where
  pub items : List T
  pub total_count : ℤ
  pub next_page_token : Text
