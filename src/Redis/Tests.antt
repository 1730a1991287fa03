-- ===== src/Redis/Tests.antt =====
-- Runs of the redis configuration.
use finokit.Base.{
  List, [], ◌∷◌, Option, none, some, Bool, true, false, Text, text, is_empty, trim_space, Result,
  ok, ℤ, pos, ◌≤ℤ◌, ◌≡◌, ◌↔◌, refl, arith, All, Distinct,
}
use finokit.Redis.{Config, normalize_config, with_defaults, normalize_addresses}
use finokit.Redis.Limits.{
  IsWithin, IsNormalized, cleaned, normalize_config_iff, default_backoff_crosses,
}

abbrev two : List Text
two = text " a:1 " ∷ text "a:1" ∷ text " " ∷ text "b:2" ∷ []

abbrev quick : Config (Unit {0})
quick = record {
  addresses = two;
  username = [];
  password = [];
  db = pos 0;
  max_retries = pos 0;
  min_retry_backoff = pos 0;
  max_retry_backoff = pos 1000000;
  dial_timeout = pos 0;
  read_timeout = pos 0;
  write_timeout = pos 0;
  context_timeout_enabled = false;
  pool_size = pos 0;
  min_idle_conns = pos 0;
  pool_timeout = pos 0;
  read_only = false;
  tls_config = none;
}

abbrev quick_normalized : Config (Unit {0})
quick_normalized = with_defaults (cleaned quick)

accepted : normalize_config quick ≡ ok quick_normalized
unfolding normalize_config finokit.Base.text_eq
accepted = refl

normalize_config_iff_example : (normalize_config quick ≡ ok quick_normalized) ↔ (
    (is_empty (normalize_addresses two) ≡ false)
    × IsWithin (cleaned quick)
    × IsNormalized quick quick_normalized)
normalize_config_iff_example = normalize_config_iff quick quick_normalized

default_backoff_crosses_example :
    (c' : Config (Unit {0})) × (normalize_config quick ≡ ok c')
    × (c'.max_retry_backoff ≡ pos 1000000)
    × (c'.min_retry_backoff ≡ pos 8000000)
default_backoff_crosses_example =
    let (left, within, normal) = (normalize_config_iff quick quick_normalized).0 accepted in
    default_backoff_crosses quick left within refl (omega arith) (omega arith)
