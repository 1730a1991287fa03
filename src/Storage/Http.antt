-- ===== src/Storage/Http.antt =====
-- storage/object.go: an object as an HTTP response. A header is an association list under canonical
-- names, and the writer is an argument.
use finokit.Base.{
  ℕ, List, [], ◌∷◌, Option, none, some, ltb, length, Text, text, text_key, insert, index, is_empty,
  if◌then◌else◌,
}
use finokit.Storage.{Object}

abbrev pub Header : Type 0
Header = List (Text × Text)

-- `HTTPHeaders`; `Set` replaces the value of a name, and writes ETag as Etag.
unfoldable pub http_headers : Option Object → Header
unfolding insert index
http_headers none = []
http_headers (some x) =
    let typed : Header =
      if is_empty x.content_type then [] else insert (text "Content-Type") x.content_type [] in
    let encoded : Header =
      if is_empty x.content_type then typed else elim (index x.content_type (text "zip")) [
        | none ↦ typed
        | some _ ↦ insert (text "Content-Encoding") (text "gzip") typed
      ] in
    if is_empty x.etag then encoded else insert (text "Etag") x.etag encoded

pub data Error : Type 0 where
  incomplete : Error
  outside : Text → Error

unfoldable pub set_each : Header → Header → Header
set_each [] header = header
set_each ((k, v) ∷ hs) header = set_each hs (insert k v header)

-- `WriteHTTPResponse`: the writer's headers, and the error; `write` gives the count of bytes written.
unfoldable pub write_http_response :
    (Text → ℕ × Option Text) → Option Object → Header → Option Error × Header
unfolding http_headers set_each
write_http_response write none header = (none, header)
write_http_response write (some x) header =
    let (count, failure) = write x.content in
    (
      elim failure [
        | some e ↦ some (outside e)
        | none ↦ if ltb count (length x.content) then some incomplete else none
      ],
      set_each (http_headers (some x)) header,
    )
