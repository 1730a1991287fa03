-- ===== src/Db/Normal.antt =====
-- What a configuration is normalized to, and that a handle is closed once.
use mathlib.Core.Path.{subst}
use finokit.Base.{
  ℕ, Option, none, some, true, false, Text, is_empty, trim_space, text, text_eq, text_eq-eq,
  to_lower, Result, ok, >>=-eq-ok, refuse_if_iff, ok_injective, ℤ, pos, leb_ℤ, ◌≡◌, refl, sym,
  arith, inl, inr, Bool-cases,
}
use finokit.Db.{
  GormConfig, Config, Closing, is_driver, parse_driver, clone_gorm_config, default_to, normalized,
  close,
}

mysql_again : (lower : ℕ → ℕ) → parse_driver lower (text "mysql") ≡ ok (text "mysql")
unfolding parse_driver is_driver text_eq to_lower trim_space
mysql_again lower = refl

sqlite_again : (lower : ℕ → ℕ) → parse_driver lower (text "sqlite") ≡ ok (text "sqlite")
unfolding parse_driver is_driver text_eq to_lower trim_space
sqlite_again lower = refl

postgres_again : (lower : ℕ → ℕ) → parse_driver lower (text "postgres") ≡ ok (text "postgres")
unfolding parse_driver is_driver text_eq to_lower trim_space
postgres_again lower = refl

-- A driver is parsed to itself.
pub parse_driver_again :
    (lower : ℕ → ℕ) (d : Text) → is_driver d ≡ true → parse_driver lower d ≡ ok d
unfolding is_driver
parse_driver_again lower d known =
    let again : Text → Type 0 = λ t. parse_driver lower t ≡ ok t in
    elim (Bool-cases (text_eq d (text "mysql"))) [
      | inl m ↦ subst again (sym (text_eq-eq d (text "mysql") m)) (mysql_again lower)
      | inr m ↦ elim (Bool-cases (text_eq d (text "sqlite"))) [
        | inl l ↦ subst again (sym (text_eq-eq d (text "sqlite") l)) (sqlite_again lower)
        | inr l ↦
            subst again (sym (text_eq-eq d (text "postgres") (ground arith))) (postgres_again lower)
      ]
    ]

parse_driver-ok :
    (lower : ℕ → ℕ) (raw d : Text) → parse_driver lower raw ≡ ok d → is_driver d ≡ true
unfolding parse_driver
parse_driver-ok lower raw d h = ground arith

default_to_again : (n : ℤ) → default_to (default_to n) ≡ default_to n
unfolding default_to
default_to_again n = ground arith

default_to_positive : (n : ℤ) → leb_ℤ (default_to n) (pos 0) ≡ false
unfolding default_to
default_to_positive n = ground arith

module _ {N Rest : Type 0} (singular : N) (zero_rest : Rest) where
  abbrev normal : Config N Rest → Text → Config N Rest
  normal c d = record c {
    driver = d;
    max_open_conns = default_to c.max_open_conns;
    max_idle_conns = default_to c.max_idle_conns;
    gorm = some (clone_gorm_config singular zero_rest c.gorm);
  }

  clone_again :
      (g : Option (GormConfig N Rest))
      → clone_gorm_config singular zero_rest (some (clone_gorm_config singular zero_rest g))
        ≡ clone_gorm_config singular zero_rest g
  unfolding clone_gorm_config
  clone_again none = refl
  clone_again (some c) = refl

  normalized-normal :
      (lower : ℕ → ℕ) (c : Config N Rest) (d : Text)
      → is_driver d ≡ true
      → is_empty (trim_space c.dsn) ≡ false
      → normalized singular zero_rest lower (some (normal c d)) ≡ ok (normal c d)
  unfolding normalized
  normalized-normal lower c d known dsn =
      rw
        (
          parse_driver_again lower d known,
          dsn,
          default_to_again c.max_open_conns,
          default_to_again c.max_idle_conns,
          clone_again c.gorm,
        )
        refl

  -- When a configuration of a database is normalized, its driver is one of the three, its DSN is not
  -- blank, both limits on connections are positive, and normalizing the result changes nothing.
  pub normalized_again :
      (lower : ℕ → ℕ) (c c' : Config N Rest)
      → normalized singular zero_rest lower (some c) ≡ ok c'
      → (is_driver c'.driver ≡ true)
        × (is_empty (trim_space c'.dsn) ≡ false)
        × (leb_ℤ c'.max_open_conns (pos 0) ≡ false)
        × (leb_ℤ c'.max_idle_conns (pos 0) ≡ false)
        × (normalized singular zero_rest lower (some c') ≡ ok c')
  unfolding normalized
  normalized_again lower c c' h =
      let (d, parsed, rest) = >>=-eq-ok (parse_driver lower c.driver) _ h in
      let (dsn, same) = (refuse_if_iff (is_empty (trim_space c.dsn)) _ _ c').0 rest in
      let known = parse_driver-ok lower c.driver d parsed in
      subst
        (λ n.
          (is_driver n.driver ≡ true)
          × (is_empty (trim_space n.dsn) ≡ false)
          × (leb_ℤ n.max_open_conns (pos 0) ≡ false)
          × (leb_ℤ n.max_idle_conns (pos 0) ≡ false)
          × (normalized singular zero_rest lower (some n) ≡ ok n))
        (ok_injective same)
        (
          known,
          dsn,
          default_to_positive c.max_open_conns,
          default_to_positive c.max_idle_conns,
          normalized-normal lower c d known dsn,
        )

-- Once `Close` has run, each further call returns the same error, leaves everything as it is, and does
-- not close the pool again, whatever getting the pool or closing it would give by then.
pub close-close :
    (pool pool' : Result Text (Option Text)) (c : Closing)
    → close pool' (close pool c).1 ≡ close pool c
unfolding close
close-close pool pool' c = elim (Bool-cases c.done) [ inl d ↦ ground arith | inr d ↦ ground arith ]
