-- ===== src/Storage/Client/Tests.antt =====
-- Runs of the client against a server that keeps a list of keys and contents.
use finokit.Base.{
  ◌+◌, ◌/◌, ◌<◌, ◌==◌, List, [], ◌∷◌, ◌++◌, none, some, true, false, Text, text, text_eq,
  text_eq_refl, length, Result, ok, err, pos, ◌≤ℤ◌, ◌≡◌, ◌↔◌, refl, sym, ap, ◌∙◌, arith,
  if◌then◌else◌,
}
use finokit.Storage.{Config, Object, ObjectInfo, validate_write_object}
use finokit.Storage.Pages.{objects_of}
use finokit.Storage.Requests.{default_options}
use finokit.Storage.Client.{Access, Handle, Minio, read, write}
use finokit.Storage.Client.Reads.{Stores, read_object, read_iff, read-write}
use finokit.Storage.Client.Listing.{Lists, follow, follow_ends}

abbrev Held : Type 0
Held = List (Text × Text)

abbrev described : Text → Text → Object
described k c = record {
  key = k;
  size = pos (length c);
  last_modified = pos 0;
  etag = [];
  content_type = [];
  content = [];
}

abbrev handle : Text → Text → Handle
handle k c = record { body = record { bytes = c; failure = none }; stat = ok (described k c) }

abbrev find : Text → Held → Result Text Handle
find k [] = err (text "no such key")
find k ((k', c) ∷ s) = let rest = find k s in if text_eq k k' then ok (handle k c) else rest

abbrev entry : Text → ObjectInfo
entry k = record { object = described k (text "x"); failure = none }

abbrev key_a : Text
key_a = text "a"

abbrev key_b : Text
key_b = text "b"

abbrev entries : List ObjectInfo
entries = entry key_a ∷ entry key_b ∷ []

abbrev behind_key : Text → List ObjectInfo
behind_key [] = entries
behind_key (c ∷ t) = if c == 97 then entry key_b ∷ [] else []

abbrev server : Minio Held
server = record {
  connect = λ endpoint opts. none;
  bucket_exists = λ b s. ok true;
  make_bucket = λ b region s. (none, s);
  get_object = λ b k s. find k s;
  put_object = λ b k content size opts s. (none, (k, content) ∷ s);
  list_objects = λ b prefix n token s. behind_key token;
  remove_objects = λ b keys s. ([], []);
  fget_object = λ b k path s. (none, s);
  fput_object = λ b k path opts s. (none, s);
  presigned_get = λ b k ttl s. ok k;
  presigned_put = λ b k ttl s. ok k;
}

abbrev config : Config Access
config = record {
  endpoint = text "localhost:9000";
  region = [];
  bucket_name = text "main";
  max_object_size = pos 10;
  others = record { secure = false; access_key = []; secret_key = [] };
}

abbrev letter : Object
letter = record {
  key = text "letter";
  size = pos 0;
  last_modified = pos 0;
  etag = [];
  content_type = [];
  content = text "hello";
}

server-Stores : Stores server
server-Stores b k content size opts s whole done = (
  handle k content,
  described k content,
  rw (text_eq_refl k) refl,
  refl,
  refl,
  sym whole,
  refl,
  refl,
)

writes_letter : (write server config (some letter) default_options []).0 ≡ none
unfolding write validate_write_object
writes_letter = refl

read-write_example :
    (back : Object) × (read server config letter.key default_options
        (write server config (some letter) default_options []).1
      ≡ ok back)
    × (back.key ≡ letter.key)
    × (back.content ≡ letter.content)
    × (back.size ≡ pos 5)
read-write_example =
    read-write server server-Stores config letter default_options default_options [] 10 refl
      (omega arith) refl writes_letter

abbrev held : Held
held = (text "letter", text "hello") ∷ []

read_iff_example :
    (read server config (text "letter") default_options held
      ≡ ok (read_object (described (text "letter") (text "hello")) (text "hello")))
    ↔ ((h : Handle) × (info : Object) × (find (text "letter") held ≡ ok h)
        × (h.stat ≡ ok info)
        × (info.size ≤ℤ pos 10)
        × (length h.body.bytes < 10 + 1)
        × (h.body.failure ≡ none)
        × (read_object (described (text "letter") (text "hello")) (text "hello")
            ≡ read_object info h.body.bytes))
read_iff_example =
    read_iff server config (text "letter") default_options held 10
      (read_object (described (text "letter") (text "hello")) (text "hello")) refl (omega arith)

server-Lists : Lists server none config [] default_options held entries
server-Lists = (refl, after)
  where
    after :
        (before : List ObjectInfo) (i : ObjectInfo) (rest : List ObjectInfo)
        → entries ≡ before ++ i ∷ rest
        → behind_key i.object.key ≡ rest
    after [] i rest h =
        let this : entry key_a ≡ i = cc in
        let later : entry key_b ∷ [] ≡ rest = cc in
        ap (λ j. behind_key j.object.key) (sym this) ∙ later
    after (x ∷ []) i rest h =
        let this : entry key_b ≡ i = cc in
        let later : [] ≡ rest = cc in ap (λ j. behind_key j.object.key) (sym this) ∙ later
    after (x ∷ y ∷ []) i rest h = cc
    after (x ∷ y ∷ z ∷ before) i rest h = cc

follow_ends_example :
    follow server none config [] default_options held (length entries / 1000 + 1) []
    ≡ some (objects_of entries)
follow_ends_example =
    follow_ends server none config [] default_options held entries server-Lists (refl, (refl, tt))
      (refl, (refl, tt))
