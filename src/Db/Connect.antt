-- ===== src/Db/Connect.antt =====
-- db/db.go: the opening of a database. gorm and the pool of database/sql are a record of their calls.
use finokit.Base.{
  ℕ, Option, some, true, Text, text, text_eq, Result, ok, err, ◌>>=◌, map_err, ℤ, ◌≡◌, refl,
  Bool-cases, inl, inr, arith, if◌then◌else◌,
}
use finokit.Db
use finokit.Db.Normal.{parse_driver_again}
use finokit.Db.{
  GormConfig, Config, normalized, parse_driver, unsupported_driver, is_driver, clone_gorm_config,
  default_to,
}

pub data Error : Type 0 where
  invalid : Db.Error → Error
  connect_failed get_failed : Text → Error
  scan_failed : Text → Error

-- A driver with its data source.
pub data Dialector : Type 0 where
  mysql sqlite postgres : Text → Dialector

-- What is called of gorm on a handle D, and of its pool P.
pub record Opens (D P G : Type 0) : Type 0 where
  pub connect : Dialector → G → Result Text D
  pub debug : D → D
  pub pool : D → Result Text P
  pub set_max_idle_conns : ℤ → P → P
  pub set_max_open_conns : ℤ → P → P
  pub set_conn_max_lifetime : ℤ → P → P
  pub set_conn_max_idle_time : ℤ → P → P

abbrev pub or_invalid {ℓ} : {A : Type ℓ} → Result Db.Error A → Result Error A
or_invalid r = map_err invalid r

unfoldable pub new_dialector : (ℕ → ℕ) → Text → Text → Result Db.Error Dialector
unfolding parse_driver text_eq
new_dialector lower driver_name dsn = do
  driver ← parse_driver lower driver_name
  if text_eq driver (text "mysql")
      then ok (mysql dsn)
      else if text_eq driver (text "sqlite")
      then ok (sqlite dsn)
      else if text_eq driver (text "postgres")
      then ok (postgres dsn)
      else err (unsupported_driver driver_name)

module _ {D P N Rest : Type 0} (gorm : Opens D P (GormConfig N Rest)) where
  -- A database: the handle, with its pool set, and the configuration.
  pub record Database : Type 0 where
    pub handle : D
    pub pool : P
    pub config : Config N Rest

  -- The limits of a pool that `NewWithConfig` sets.
  unfoldable pub set_limits : Config N Rest → P → P
  set_limits c p = gorm.set_conn_max_idle_time c.conn_max_idle_time (
      gorm.set_conn_max_lifetime c.conn_max_lifetime
        (gorm.set_max_open_conns c.max_open_conns (gorm.set_max_idle_conns c.max_idle_conns p)))

  module _ (lower : ℕ → ℕ) (singular : N) (zero_rest : Rest) where
    unfoldable pub new_with_config : Option (Config N Rest) → Result Error Database
    unfolding normalized new_dialector clone_gorm_config set_limits
    new_with_config cfg = do
      n ← or_invalid (normalized singular zero_rest lower cfg)
      dialector ← or_invalid (new_dialector lower n.driver n.dsn)
      d ←
          map_err connect_failed
            (gorm.connect dialector (clone_gorm_config singular zero_rest n.gorm))
      let d' = if n.debug then gorm.debug d else d
      p ← map_err get_failed (gorm.pool d')
      ok (record { handle = d'; pool = set_limits n p; config = n })

    -- `New`, with the scan of the section "db".
    unfoldable pub new : Result Text (Config N Rest) → Result Error Database
    unfolding new_with_config
    new (err e) = err (scan_failed e)
    new (ok cfg) = new_with_config (some cfg)

-- A driver that is known has its dialector.
is_driver-new_dialector :
    (lower : ℕ → ℕ) (d dsn : Text)
    → is_driver d ≡ true
    → (dialector : Dialector) × (new_dialector lower d dsn ≡ ok dialector)
unfolding new_dialector is_driver
is_driver-new_dialector lower d dsn known =
    let again = parse_driver_again lower d known in
    elim (Bool-cases (text_eq d (text "mysql"))) [
      | inl m ↦ (mysql dsn, rw (new_dialector, again, m) refl)
      | inr m ↦ elim (Bool-cases (text_eq d (text "sqlite"))) [
        | inl l ↦ (sqlite dsn, rw (new_dialector, again, m, l) refl)
        | inr l ↦
            let p : text_eq d (text "postgres") ≡ true = ground arith in
            (postgres dsn, rw (new_dialector, again, m, l, p) refl)
      ]
    ]
