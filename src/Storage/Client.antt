-- ===== src/Storage/Client.antt =====
-- storage/client.go: the calls of the S3 client. The minio client, the files and the context are
-- arguments: a server is a state that the calls read and change.
pub mod Reads
pub mod Listing
mod Tests
use finokit.Base.{
  ℕ, ◌+◌, List, [], ◌∷◌, Option, none, some, Bool, true, false, not, ◌&&◌, Text, text, is_empty,
  length, take, ltb, Result, ok, err, ◌>>=◌, ◌>>◌, refuse_if, or_fail, map_err, ℤ, pos, pos_part,
  ltb_ℤ, leb_ℤ, ◌+ℤ◌, if◌then◌else◌,
}
use finokit.Storage.{
  Error, outside, no_object, object_too_large, Config, Object, ObjectInfo, ListResult, validate,
  normalized, validate_write_object, list_page_size, collect_list_page,
}
use finokit.Storage.Requests.{RequestOptions}

-- The fields of the configuration that only the connection reads.
pub record Access : Type 0 where
  pub secure : Bool
  pub access_key : Text
  pub secret_key : Text

-- `minio.Options`; the credentials are none for anonymous requests.
pub record ConnectOptions : Type 0 where
  pub secure : Bool
  pub region : Text
  pub credentials : Option (Text × Text)

-- What a body gives: its bytes, and the error after them where the reading fails there.
pub record Body : Type 0 where
  pub bytes : Text
  pub failure : Option Text

-- An opened object: its body, and what `Stat` says of it, which has no content.
pub record Handle : Type 0 where
  pub body : Body
  pub stat : Result Text Object

pub record PutOptions : Type 0 where
  pub content_type : Text
  pub num_threads : ℤ

-- The calls of the minio client on the server's state.
pub record Minio (St : Type 0) : Type 0 where
  pub connect : Text → ConnectOptions → Option Text
  pub bucket_exists : Text → St → Result Text Bool
  pub make_bucket : Text → Text → St → Option Text × St
  pub get_object : Text → Text → St → Result Text Handle
  pub put_object : Text → Text → Text → ℤ → PutOptions → St → Option Text × St
  -- bucket, prefix, page size, and the key to start after
  pub list_objects : Text → Text → ℕ → Text → St → List ObjectInfo
  pub remove_objects : Text → List Text → St → List (Option Text) × St
  pub fget_object : Text → Text → Text → St → Option Text × St
  pub fput_object : Text → Text → Text → PutOptions → St → Option Text × St
  pub presigned_get : Text → Text → ℤ → St → Result Text Text
  pub presigned_put : Text → Text → ℤ → St → Result Text Text

-- `io.ReadAll(io.LimitReader(body, limit))`: what comes after the limit is not read.
unfoldable pub read_limited : ℤ → Body → Result Text Text
read_limited limit body =
    if ltb (length body.bytes) (pos_part limit)
    then elim body.failure [ none ↦ ok body.bytes | some e ↦ err e ]
    else ok (take (pos_part limit) body.bytes)

unfoldable pub bucket_of : Config Access → RequestOptions → Text
bucket_of cfg o = if is_empty o.bucket then cfg.bucket_name else o.bucket

abbrev pub or_outside {ℓ} : {A : Type ℓ} → Result Text A → Result Error A
or_outside r = map_err outside r

-- The limit of a reading: one byte more than may be there.
abbrev pub read_limit : ℤ → ℤ
read_limit max = if ltb_ℤ max (pos 9223372036854775807) then max +ℤ pos 1 else max

-- What `Read` does of an opened and described object.
unfoldable pub read_body : ℤ → Object → Body → Result Error Object
unfolding read_limited
read_body max info body = do
  refuse_if (ltb_ℤ max info.size) object_too_large
  content ← or_outside (read_limited (read_limit max) body)
  refuse_if (ltb_ℤ max (pos (length content))) object_too_large
  ok (record info {
    content = content;
    size = if ltb_ℤ info.size (pos 0) then pos (length content) else info.size;
  })

abbrev pub answer : {St : Type 0} → Option Text × St → Option Error × St
answer (none, s) = (none, s)
answer (some e, s) = (some (outside e), s)

-- The outcome of a listing: an error of the context comes before that of the entry.
abbrev pub finish_list : Option Text → ListResult × Option Error → Result Error ListResult
finish_list ctx (result, none) = ok result
finish_list none (result, some e) = err e
finish_list (some c) (result, some e) = err (outside c)

module _ {St : Type 0} (minio : Minio St) where
  unfoldable pub ensure_bucket : Config Access → St → Option Error × St
  ensure_bucket cfg s = elim (minio.bucket_exists cfg.bucket_name s) [
    | err e ↦ (some (outside e), s)
    | ok exists ↦
        if exists then (none, s) else answer (minio.make_bucket cfg.bucket_name cfg.region s)
  ]

  abbrev pub connect_options : Config Access → ConnectOptions
  connect_options cfg = record {
    secure = cfg.others.secure;
    region = if is_empty cfg.region then text "us-east-1" else cfg.region;
    credentials =
        if is_empty cfg.others.access_key && is_empty cfg.others.secret_key
        then none
        else some (cfg.others.access_key, cfg.others.secret_key);
  }

  unfoldable pub new_client : Config Access → St → Result Error (Config Access) × St
  unfolding validate ensure_bucket
  new_client cfg s = elim (validate (some cfg)) [
    | err e ↦ (err e, s)
    | ok _ ↦ elim (minio.connect cfg.endpoint (connect_options cfg)) [
      | some e ↦ (err (outside e), s)
      | none ↦ let (e, s') = ensure_bucket cfg s in (elim e [ none ↦ ok cfg | some x ↦ err x ], s')
    ]
  ]

  -- `NewWithConfig`
  unfoldable pub new_with_config : Option (Config Access) → St → Result Error (Config Access) × St
  unfolding normalized new_client
  new_with_config cfg s = elim (normalized cfg) [ err e ↦ (err e, s) | ok c ↦ new_client c s ]

  unfoldable pub read : Config Access → Text → RequestOptions → St → Result Error Object
  unfolding bucket_of read_body
  read cfg key o s = do
    object ← or_outside (minio.get_object (bucket_of cfg o) key s)
    info ← or_outside object.stat
    read_body cfg.max_object_size info object.body

  unfoldable pub write : Config Access → Option Object → RequestOptions → St → Option Error × St
  unfolding bucket_of validate_write_object
  write cfg none o s = (some no_object, s)
  write cfg (some object) o s = elim (validate_write_object cfg.max_object_size (some object)) [
    | err e ↦ (some e, s)
    | ok size ↦ answer (
        minio.put_object (bucket_of cfg o) object.key object.content size
          (record { content_type = object.content_type; num_threads = o.concurrency }) s)
  ]

  -- The first argument is the error of the caller's context.
  unfoldable pub list :
      Option Text → Config Access → Text → RequestOptions → St → Result Error ListResult
  unfolding bucket_of
  list ctx cfg prefix o s = finish_list ctx (
      collect_list_page (minio.list_objects (bucket_of cfg o) prefix list_page_size o.page_token s))

  abbrev pub first_error : List (Option Text) → Option Text
  first_error [] = none
  first_error (none ∷ results) = first_error results
  first_error (some e ∷ results) = some e

  unfoldable pub remove : Config Access → List Text → RequestOptions → St → Option Error × St
  unfolding bucket_of
  remove cfg [] o s = (none, s)
  remove cfg (k ∷ keys) o s =
      let (results, s') = minio.remove_objects (bucket_of cfg o) (k ∷ keys) s in
      answer (first_error results, s')

  -- `clean` is `filepath.Clean`.
  unfoldable pub download :
      (Text → Text) → Config Access → Text → Text → RequestOptions → St → Option Error × St
  unfolding bucket_of
  download clean cfg key path o s = answer (minio.fget_object (bucket_of cfg o) key (clean path) s)

  -- `file_size` is the size that `os.Stat` gives.
  unfoldable pub upload :
      (Text → Text)
      → (Text → Result Text ℤ)
      → Config Access
      → Text
      → Text
      → RequestOptions
      → St
      → Option Error × St
  unfolding bucket_of
  upload clean file_size cfg local_file key o s = elim (file_size (clean local_file)) [
    | err e ↦ (some (outside e), s)
    | ok size ↦
        if ltb_ℤ cfg.max_object_size size
        then (some object_too_large, s)
        else answer (
            minio.fput_object (bucket_of cfg o) key (clean local_file)
              (record { content_type = []; num_threads = o.concurrency }) s)
  ]

  unfoldable pub presigned_download_url :
      Config Access → Text → RequestOptions → St → Result Error Text
  unfolding bucket_of
  presigned_download_url cfg key o s =
      or_outside (minio.presigned_get (bucket_of cfg o) key o.ttl s)

  unfoldable pub presigned_upload_url :
      Config Access → Text → RequestOptions → St → Result Error Text
  unfolding bucket_of
  presigned_upload_url cfg key o s = or_outside (minio.presigned_put (bucket_of cfg o) key o.ttl s)
