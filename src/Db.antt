-- ===== src/Db.antt =====
-- db/: the configuration of a database, sessions, and JSON columns. gorm and the JSON encoder are
-- arguments.
pub mod Normal
pub mod Connect
use finokit.Base.{
  ℕ, ◌+◌, List, [], ◌∷◌, Option, none, some, Bool, true, false, ◌||◌, Text, text, text_eq, is_empty,
  trim_space, to_lower, Result, ok, err, ◌>>=◌, ◌>>◌, refuse_if, map_err, ℤ, pos, leb_ℤ,
  if◌then◌else◌,
}

pub data Error : Type 0 where
  nil_config driver_required dsn_required nil_session_db : Error
  unsupported_driver : Text → Error
  unknown_source : Error
  outside : Text → Error

-- A gorm configuration over its naming strategies N, and the fields that are only copied.
pub record GormConfig (N Rest : Type 0) : Type 0 where
  pub naming_strategy : Option N
  pub translate_error : Bool
  pub others : Rest

pub record Config (N Rest : Type 0) : Type 0 where
  pub gorm : Option (GormConfig N Rest)
  pub driver : Text
  pub dsn : Text
  pub max_open_conns : ℤ
  pub max_idle_conns : ℤ
  pub conn_max_lifetime : ℤ
  pub conn_max_idle_time : ℤ
  pub debug : Bool

-- `DefaultMaxOpenConns` and `DefaultMaxIdleConns`
abbrev pub default_max_conns : ℤ
default_max_conns = pos 12

unfoldable pub is_driver : Text → Bool
unfolding text_eq
is_driver d = text_eq d (text "mysql") || text_eq d (text "sqlite") || text_eq d (text "postgres")

unfoldable pub parse_driver : (ℕ → ℕ) → Text → Result Error Text
unfolding is_driver to_lower trim_space
parse_driver lower raw =
    let driver = to_lower lower (trim_space raw) in
    if is_driver driver
    then ok driver
    else if is_empty driver
    then err driver_required
    else err (unsupported_driver raw)

unfoldable pub default_to : ℤ → ℤ
default_to n = if leb_ℤ n (pos 0) then default_max_conns else n

module _ {N Rest : Type 0} (singular : N) (zero_rest : Rest) where
  -- `singular` is the naming strategy with singular tables, `zero_rest` the fields of an empty one.
  unfoldable pub clone_gorm_config : Option (GormConfig N Rest) → GormConfig N Rest
  clone_gorm_config none = record {
    naming_strategy = some singular;
    translate_error = true;
    others = zero_rest;
  }
  clone_gorm_config (some c) = record c {
    naming_strategy = some (elim c.naming_strategy [ none ↦ singular | some n ↦ n ]);
  }

  unfoldable pub normalized : (ℕ → ℕ) → Option (Config N Rest) → Result Error (Config N Rest)
  unfolding clone_gorm_config default_to trim_space
  normalized lower none = err nil_config
  normalized lower (some c) = do
    driver ← parse_driver lower c.driver
    refuse_if (is_empty (trim_space c.dsn)) dsn_required
    ok (record c {
      driver = driver;
      max_open_conns = default_to c.max_open_conns;
      max_idle_conns = default_to c.max_idle_conns;
      gorm = some (clone_gorm_config c.gorm);
    })

-- What the code calls of gorm on a handle D.
pub record Gorm (D X : Type 0) : Type 0 where
  pub session : D → D
  pub debug : D → D
  pub write_clause : D → D
  pub unscoped : D → D
  pub locking_update : D → D
  pub with_context : X → D → D
  pub transaction : (D → Option Text) → D → Option Text

pub record Options (D : Type 0) : Type 0 where
  pub tx : Option D
  pub debug : Bool
  pub master : Bool
  pub deleted : Bool
  pub select_for_update : Bool

module _ {D X : Type 0} (gorm : Gorm D X) where
  abbrev pub no_options : Options D
  no_options = record {
    tx = none;
    debug = false;
    master = false;
    deleted = false;
    select_for_update = false;
  }

  unfoldable pub apply_each : List (Options D → Options D) → Options D → Options D
  apply_each [] o = o
  apply_each (fn ∷ opts) o = apply_each opts (fn o)

  unfoldable pub apply_options : List (Options D → Options D) → Options D
  unfolding apply_each
  apply_options opts = apply_each opts no_options

  unfoldable pub with_transaction : Option D → Options D → Options D
  with_transaction tx o = record o { tx = tx }

  unfoldable pub with_debug : Options D → Options D
  with_debug o = record o { debug = true }

  unfoldable pub with_master : Options D → Options D
  with_master o = record o { master = true }

  unfoldable pub with_deleted : Options D → Options D
  with_deleted o = record o { deleted = true }

  unfoldable pub with_select_for_update : Options D → Options D
  with_select_for_update o = record o { select_for_update = true }

  abbrev pub when : Bool → (D → D) → D → D
  when b f d = if b then f d else d

  -- `NewSession`; the handle is none where the receiver or its DB is nil.
  unfoldable pub new_session : Option D → X → List (Options D → Options D) → Option D
  unfolding apply_options
  new_session none ctx opts = none
  new_session (some db) ctx opts =
      let o = apply_options opts in
      let session : D = elim o.tx [ none ↦ gorm.session db | some tx ↦ tx ] in
      some (
        gorm.with_context ctx (
          when o.select_for_update gorm.locking_update (
            when o.deleted gorm.unscoped
              (when o.master gorm.write_clause (when o.debug gorm.debug session)))))

  unfoldable pub transaction :
      Option D → X → (D → Option Text) → List (Options D → Options D) → Option Error
  unfolding new_session
  transaction db ctx fn opts = elim (new_session db ctx opts) [
    | none ↦ some nil_session_db
    | some session ↦ elim (gorm.transaction fn session) [ none ↦ none | some e ↦ some (outside e) ]
  ]

-- The once that guards `Close`, with the error that it kept, and how often the pool was closed.
pub record Closing : Type 0 where
  pub done : Bool
  pub close_err : Option Text
  pub closes : ℕ

-- `Close` of an open handle: `pool` is the sql DB, or the error of getting it.
unfoldable pub close : Result Text (Option Text) → Closing → Option Text × Closing
close pool c =
    let c' : Closing = if c.done then c else elim pool [
      | err e ↦ record c { done = true; close_err = some e }
      | ok closed ↦ record { done = true; close_err = closed; closes = c.closes + 1 }
    ] in
    (c'.close_err, c')

-- What a driver gives for a column: nil, bytes, a string, or a value of another type.
pub data Column : Type 0 where
  null : Column
  bytes : Text → Column
  string : Text → Column
  other : Column

-- `JSONValuer.Value` of a value that may be nil; `is_zero` is reflection's.
unfoldable pub value :
    {V : Type 0} → (V → Bool) → (V → Result Text Text) → Option V → Result Text (Option Text)
value is_zero marshal none = ok none
value is_zero marshal (some v) =
    if is_zero v then ok none else elim (marshal v) [ ok s ↦ ok (some s) | err e ↦ err e ]

-- `JSONScanner.Scan` into a target that may be nil: the target afterwards.
unfoldable pub scan :
    {V : Type 0} → (Text → V → Result Text V) → Option V → Column → Result Error (Option V)
scan unmarshal v null = ok v
scan unmarshal none (bytes b) = ok none
scan unmarshal none (string s) = ok none
scan unmarshal none other = ok none
scan unmarshal (some v) (bytes b) = elim (unmarshal b v) [
  | ok w ↦ ok (some w)
  | err e ↦ err (outside e)
]
scan unmarshal (some v) (string s) = elim (unmarshal s v) [
  | ok w ↦ ok (some w)
  | err e ↦ err (outside e)
]
scan unmarshal (some v) other = err unknown_source

-- `gormDBJSONType` of a dialect's name.
unfoldable pub json_type : Option Text → Text
unfolding text_eq
json_type none = []
json_type (some name) =
    if text_eq name (text "sqlite") || text_eq name (text "mysql")
    then text "JSON"
    else if text_eq name (text "postgres")
    then text "JSONB"
    else []
