-- ===== src/Logs/Default.antt =====
-- logs/logs.go and logs/service.go: the default logger, which the core module keeps, and the services. The
-- core module is a record of its operations.
use mathlib.Core.Option
use finokit.Base.{
  ℕ, zero, suc, Option, none, some, Text, ℤ, pos, Result, ok, err, List, ◌≡◌, refl, ap,
}
use finokit.Logs.{Logger, plain, traced, with_trace, Entry, log}

-- The calls that the package hands on, with their arguments.
pub data Call (A : Type 0) : Type 0 where
  debug info warn error fatal : List A → Call A
  debugf infof warnf errorf fatalf : Text → List A → Call A
  debugw infow warnw errorw fatalw : Text → List A → Call A
  new_error : List A → Call A
  new_errorf new_errorw : Text → List A → Call A

-- The core module, with loggers L, configurations C, services S and contexts X; what a call of a service
-- does is an R.
pub record Core (L C S X A R : Type 0) : Type 0 where
  pub new_default_config : C
  -- its `NewLoggerWith`, where both a logger and an error may be nil
  pub new_logger_with : C → Option L × Option Text
  pub new_service : Option (Logger L) → S
  pub new_service_with_caller_skip : Option (Logger L) → ℤ → S
  pub with_context : X → S → S
  pub with_logger : Option (Logger L) → S → S
  pub call : Call A → S → R

module _ {L C S X A R : Type 0} (core : Core L C S X A R) where
  unfoldable pub new_logger_with : C → Option (Logger L) × Option Text
  unfolding with_trace
  new_logger_with cfg =
      let (l, e) = core.new_logger_with cfg in (with_trace (Option.map plain l), e)

  -- The default logger of the core module is the state.
  unfoldable pub default_logger : Option (Logger L) → Option (Logger L)
  unfolding with_trace
  default_logger l = with_trace l

  unfoldable pub set_logger : Option (Logger L) → Option (Logger L) → Option (Logger L)
  unfolding with_trace
  set_logger l kept = with_trace l

  -- `NewConfig`; the scan of the section "logs" is an argument.
  unfoldable pub new_config :
      (C → Result Text C) → Option (Logger L) → Option Text × Option (Logger L)
  unfolding new_logger_with set_logger
  new_config scan kept = elim (scan core.new_default_config) [
    | err e ↦ (some e, kept)
    | ok cfg ↦
        let (l, e) = new_logger_with cfg in
        elim e [ some x ↦ (some x, kept) | none ↦ (none, set_logger l kept) ]
  ]

  unfoldable pub new_service : Option (Logger L) → S
  unfolding with_trace
  new_service l = core.new_service (with_trace l)

  -- `WithContext` and `WithLogger` of a service, which may be nil.
  unfoldable pub with_context : X → Option S → S
  unfolding new_service
  with_context ctx none = core.with_context ctx (new_service none)
  with_context ctx (some s) = core.with_context ctx s

  unfoldable pub with_logger : Option (Logger L) → Option S → S
  unfolding new_service with_trace
  with_logger l none = new_service l
  with_logger l (some s) = core.with_logger (with_trace l) s

  -- `Ctx`
  unfoldable pub bind : X → Option (Logger L) → S
  unfolding new_service with_context
  bind ctx kept = with_context ctx (some (new_service kept))

  unfoldable pub default_service : Option (Logger L) → S
  unfolding default_logger
  default_service kept = core.new_service_with_caller_skip (default_logger kept) (pos 1)

  -- `Debug` to `NewErrorw`
  unfoldable pub forward : Call A → Option (Logger L) → R
  unfolding default_service
  forward c kept = core.call c (default_service kept)

-- What a logger hands to the logger of the core module at its bottom: `Log`, through each that adds a
-- trace.
unfoldable pub log_through :
    {L V Rest : Type 0} → Logger L → Option (V × V) → Entry V Rest → Entry V Rest
unfolding log
log_through (plain l) span entry = entry
log_through (traced l) span entry = log_through l span (log span entry)

module _ {L C S X A R : Type 0} (core : Core L C S X A R) where
  -- `SetLogger(DefaultLogger())`, a number of times.
  abbrev pub set_again : ℕ → Option (Logger L) → Option (Logger L)
  set_again zero kept = kept
  set_again (suc n) kept = set_again n (set_logger core (default_logger core kept) kept)

  set_again-traced :
      (n : ℕ) (l : L) → set_again n (some (traced (plain l))) ≡ some (traced (plain l))
  unfolding set_logger default_logger with_trace
  set_again-traced zero l = refl
  set_again-traced (suc n) l = set_again-traced n l

  -- However often the default logger is read and set again, on a logger of the core module, an entry
  -- passes through one logger that adds the trace, so its trace is added once, and the number of callers
  -- to skip is raised by one.
  pub traces_once :
      {V Rest : Type 0} (n : ℕ) (l : L) (span : Option (V × V)) (entry : Entry V Rest)
      → Option.map
          (λ k. log_through k span entry)
          (default_logger core (set_again n (some (plain l))))
        ≡ some (log span entry)
  unfolding default_logger with_trace set_logger log_through
  traces_once zero l span entry = refl
  traces_once (suc n) l span entry =
      ap (λ k. Option.map (λ t. log_through t span entry) (default_logger core k))
        (set_again-traced n l)
