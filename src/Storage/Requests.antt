-- ===== src/Storage/Requests.antt =====
-- storage/options.go: the options of a request. A nil option is none.
use finokit.Base.{List, [], ◌∷◌, Option, none, some, Text, is_empty, ℤ, pos, ltb_ℤ, if◌then◌else◌}

pub record RequestOptions : Type 0 where
  pub bucket : Text
  pub concurrency : ℤ
  pub page_token : Text
  -- in nanoseconds
  pub ttl : ℤ

unfoldable pub with_concurrency : ℤ → RequestOptions → RequestOptions
with_concurrency n o = if ltb_ℤ (pos 0) n then record o { concurrency = n } else o

unfoldable pub with_sign_ttl : ℤ → RequestOptions → RequestOptions
with_sign_ttl ttl o = if ltb_ℤ (pos 0) ttl then record o { ttl = ttl } else o

unfoldable pub with_bucket : Text → RequestOptions → RequestOptions
with_bucket bucket o = if is_empty bucket then o else record o { bucket = bucket }

unfoldable pub with_page_token : Text → RequestOptions → RequestOptions
with_page_token token o = record o { page_token = token }

abbrev pub default_options : RequestOptions
default_options = record {
  bucket = [];
  concurrency = pos 3;
  page_token = [];
  ttl = pos 86400000000000;
}

unfoldable pub apply_each :
    List (Option (RequestOptions → RequestOptions)) → RequestOptions → RequestOptions
apply_each [] o = o
apply_each (none ∷ opts) o = apply_each opts o
apply_each (some opt ∷ opts) o = apply_each opts (opt o)

unfoldable pub apply_options : List (Option (RequestOptions → RequestOptions)) → RequestOptions
unfolding apply_each
apply_options opts = apply_each opts default_options
