-- ===== src/Redis.antt =====
-- redis/config.go: the configuration of a client, its limits and defaults. Durations are nanoseconds.
pub mod Service
pub mod Limits
pub mod Addresses
pub mod Connect
mod Tests
use finokit.Base.{
  ℕ, List, [], ◌∷◌, Option, none, some, Bool, true, false, not, ◌&&◌, ◌||◌, ltb, Text, text,
  text_key, is_empty, trim_space, has_key, insert, length, Result, ok, err, ◌>>=◌, ◌>>◌, refuse_if,
  ℤ, pos, negsuc, ltb_ℤ, eqb_ℤ, if◌then◌else◌,
}

pub data Error : Type 0 where
  nil_config empty_addresses invalid_db cluster_db_unsupported invalid_pool_size : Error
  invalid_min_idle_conns invalid_max_retries invalid_backoff backoffs_crossed : Error
  invalid_dial_timeout invalid_rw_timeout : Error

pub record Config (Tls : Type 0) : Type 0 where
  pub addresses : List Text
  pub username : Text
  pub password : Text
  pub db : ℤ
  pub max_retries : ℤ
  pub min_retry_backoff : ℤ
  pub max_retry_backoff : ℤ
  pub dial_timeout : ℤ
  pub read_timeout : ℤ
  pub write_timeout : ℤ
  pub context_timeout_enabled : Bool
  pub pool_size : ℤ
  pub min_idle_conns : ℤ
  pub pool_timeout : ℤ
  pub read_only : Bool
  pub tls_config : Option Tls

-- The loop of `normalizeAddresses`.
unfoldable pub addresses_from : List (Text × Unit {0}) → List Text → List Text
unfolding trim_space has_key insert
addresses_from seen [] = []
addresses_from seen (addr ∷ addrs) =
    let a = trim_space addr in
    elim (is_empty a || has_key a seen) [
      | true ↦ addresses_from seen addrs
      | false ↦ a ∷ addresses_from (insert a tt seen) addrs
    ]

unfoldable pub normalize_addresses : List Text → List Text
unfolding addresses_from
normalize_addresses addrs = addresses_from [] addrs

-- `if v == 0 { v = d }`
abbrev pub default_to : ℤ → ℤ → ℤ
default_to d v = if eqb_ℤ v (pos 0) then d else v

module _ {Tls : Type 0} where
  -- The tests of `normalizeConfig`, in its order, on a configuration with its final addresses.
  unfoldable pub check_limits : Config Tls → Result Error (Unit {0})
  check_limits c =
      refuse_if (ltb_ℤ c.db (pos 0)) invalid_db
      >> refuse_if (ltb 1 (length c.addresses) && not (eqb_ℤ c.db (pos 0))) cluster_db_unsupported
      >> refuse_if (ltb_ℤ c.pool_size (pos 0)) invalid_pool_size
      >> refuse_if (ltb_ℤ c.min_idle_conns (pos 0)) invalid_min_idle_conns
      >> refuse_if (ltb_ℤ c.max_retries (negsuc 0)) invalid_max_retries
      >> refuse_if (ltb_ℤ c.min_retry_backoff (negsuc 0) || ltb_ℤ c.max_retry_backoff (negsuc 0))
          invalid_backoff
      >> refuse_if
          (ltb_ℤ (pos 0) c.min_retry_backoff
            && ltb_ℤ (pos 0) c.max_retry_backoff
            && ltb_ℤ c.max_retry_backoff c.min_retry_backoff)
          backoffs_crossed
      >> refuse_if (ltb_ℤ c.dial_timeout (pos 0)) invalid_dial_timeout
      >> refuse_if (ltb_ℤ c.read_timeout (negsuc 1) || ltb_ℤ c.write_timeout (negsuc 1))
          invalid_rw_timeout

  unfoldable pub with_defaults : Config Tls → Config Tls
  with_defaults c = record c {
    max_retries = default_to (pos 3) c.max_retries;
    min_retry_backoff = default_to (pos 8000000) c.min_retry_backoff;
    max_retry_backoff = default_to (pos 512000000) c.max_retry_backoff;
  }

  unfoldable pub normalize_config : Config Tls → Result Error (Config Tls)
  unfolding normalize_addresses check_limits with_defaults
  normalize_config c =
      let addresses = normalize_addresses c.addresses in
      if is_empty addresses
      then err empty_addresses
      else (let c' : Config Tls = record c { addresses = addresses } in
          check_limits c' >> ok (with_defaults c'))

  unfoldable pub normalized : Option (Config Tls) → Result Error (Config Tls)
  unfolding normalize_config
  normalized none = err nil_config
  normalized (some c) = normalize_config c
