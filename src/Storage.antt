-- ===== src/Storage.antt =====
-- storage/: the configuration, the limits on objects, and a page of a listing.
pub mod Http
pub mod Requests
pub mod Client
pub mod Pages
mod Tests
use finokit.Base.{
  ℕ, suc, List, [], ◌∷◌, ◌++◌, Option, none, some, Bool, true, false, not, ◌==◌, Text, is_empty,
  trim_space, length, Result, ok, err, ◌>>◌, refuse_if, ℤ, pos, ltb_ℤ, leb_ℤ, eqb_ℤ, if◌then◌else◌,
}

pub data Error : Type 0 where
  nil_config no_endpoint no_bucket_name bad_max_object_size : Error
  no_object no_key negative_size size_mismatch object_too_large : Error
  outside : Text → Error

-- The fields of Config that are tested, and the rest.
pub record Config (Rest : Type 0) : Type 0 where
  pub endpoint : Text
  pub region : Text
  pub bucket_name : Text
  pub max_object_size : ℤ
  pub others : Rest

abbrev pub default_max_object_size : ℤ
default_max_object_size = pos 4294967296

pub record Object : Type 0 where
  pub key : Text
  pub size : ℤ
  pub last_modified : ℤ
  pub etag : Text
  pub content_type : Text
  pub content : Text

module _ {Rest : Type 0} where
  unfoldable pub validate : Option (Config Rest) → Result Error (Unit {0})
  unfolding trim_space
  validate none = err nil_config
  validate (some c) =
      refuse_if (is_empty (trim_space c.endpoint)) no_endpoint
      >> refuse_if (is_empty (trim_space c.bucket_name)) no_bucket_name
      >> refuse_if (leb_ℤ c.max_object_size (pos 0)) bad_max_object_size

  unfoldable pub normalized : Option (Config Rest) → Result Error (Config Rest)
  unfolding trim_space
  normalized none = err nil_config
  normalized (some c) = ok (record c {
    endpoint = trim_space c.endpoint;
    region = trim_space c.region;
    bucket_name = trim_space c.bucket_name;
    max_object_size =
        if leb_ℤ c.max_object_size (pos 0) then default_max_object_size else c.max_object_size;
  })

-- The size under which an object is written; an object's size of zero stands for its content's.
unfoldable pub validate_write_object : ℤ → Option Object → Result Error ℤ
validate_write_object limit none = err no_object
validate_write_object limit (some o) =
    let content_size = pos (length o.content) in
    let size = if eqb_ℤ o.size (pos 0) then content_size else o.size in
    if is_empty o.key
    then err no_key
    else if ltb_ℤ size (pos 0)
    then err negative_size
    else if not (eqb_ℤ size content_size)
    then err size_mismatch
    else if ltb_ℤ limit size
    then err object_too_large
    else ok size

-- An entry of the listing's channel: what it holds of an object, and its error.
pub record ObjectInfo : Type 0 where
  pub object : Object
  pub failure : Option Error

pub record ListResult : Type 0 where
  pub objects : List Object
  pub next_page_token : Text

-- The loop of `collectListPage`, for a page size.
unfoldable pub collect_from :
    ℕ → Bool → ListResult → Option Error → List ObjectInfo → ListResult × Option Error
collect_from n stopped result first_err [] = (result, first_err)
collect_from n true result first_err (info ∷ infos) = collect_from n true result first_err infos
collect_from n false result first_err (info ∷ infos) = elim info.failure [
  | some e ↦ collect_from n true result (some e) infos
  | none ↦
      let objects = result.objects ++ info.object ∷ [] in
      elim (length objects == n) [
        | true ↦
            collect_from n true (record { objects = objects; next_page_token = info.object.key })
              first_err infos
        | false ↦ collect_from n false (record result { objects = objects }) first_err infos
      ]
]

abbrev pub list_page_size : ℕ
list_page_size = 1000

unfoldable pub collect_list_page : List ObjectInfo → ListResult × Option Error
unfolding collect_from
collect_list_page infos =
    collect_from list_page_size false (record { objects = []; next_page_token = [] }) none infos
