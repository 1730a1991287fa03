-- ===== src/Storage/Tests.antt =====
-- Runs of the storage definitions.
use finokit.Base.{List, [], ◌∷◌, none, text, pos}
use finokit.Storage.{Object, ObjectInfo}

abbrev letter : Object
letter = record {
  key = text "a/letter";
  size = pos 0;
  last_modified = pos 0;
  etag = [];
  content_type = text "text/plain";
  content = text "hello";
}

abbrev listing : List ObjectInfo
listing =
    record { object = letter; failure = none } ∷ record { object = letter; failure = none } ∷ []
