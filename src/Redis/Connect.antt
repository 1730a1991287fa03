-- ===== src/Redis/Connect.antt =====
-- redis/redis.go: the opening of a client. The client of go-redis is made by an argument.
use finokit.Base.{List, Option, some, Bool, Text, Result, ok, err, ◌>>=◌, map_err, ℤ}
use finokit.Redis
use finokit.Redis.{Config, normalized}
use finokit.Redis.Service.{Service, serve}

pub data Error : Type 0 where
  invalid : Redis.Error → Error
  scan_failed : Text → Error

-- The fields of `UniversalOptions` that are set.
pub record UniversalOptions (Tls : Type 0) : Type 0 where
  pub addrs : List Text
  pub username : Text
  pub password : Text
  pub db : ℤ
  pub max_retries : ℤ
  pub min_retry_backoff : ℤ
  pub max_retry_backoff : ℤ
  pub dial_timeout : ℤ
  pub read_timeout : ℤ
  pub write_timeout : ℤ
  pub context_timeout_enabled : Bool
  pub pool_size : ℤ
  pub min_idle_conns : ℤ
  pub pool_timeout : ℤ
  pub read_only : Bool
  pub tls_config : Option Tls

unfoldable pub universal_options : {Tls : Type 0} → Config Tls → UniversalOptions Tls
universal_options c = record {
  addrs = c.addresses;
  username = c.username;
  password = c.password;
  db = c.db;
  max_retries = c.max_retries;
  min_retry_backoff = c.min_retry_backoff;
  max_retry_backoff = c.max_retry_backoff;
  dial_timeout = c.dial_timeout;
  read_timeout = c.read_timeout;
  write_timeout = c.write_timeout;
  context_timeout_enabled = c.context_timeout_enabled;
  pool_size = c.pool_size;
  min_idle_conns = c.min_idle_conns;
  pool_timeout = c.pool_timeout;
  read_only = c.read_only;
  tls_config = c.tls_config;
}

module _ {Tls R : Type 0} (new_universal_client : UniversalOptions Tls → R) where
  unfoldable pub new_with_config : Option (Config Tls) → Result Error (Service R)
  unfolding normalized universal_options
  new_with_config cfg = do
    n ← map_err invalid (normalized cfg)
    ok (serve (new_universal_client (universal_options n)))

  -- `New`, with the scan of the section "redis".
  unfoldable pub new : Result Text (Config Tls) → Result Error (Service R)
  unfolding new_with_config
  new (err e) = err (scan_failed e)
  new (ok cfg) = new_with_config (some cfg)
