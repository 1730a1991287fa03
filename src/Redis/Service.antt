-- ===== src/Redis/Service.antt =====
-- redis/redis.go and redis/provider.go: the service over a client of go-redis, whose calls are arguments.
use finokit.Base.{
  Option, none, some, Bool, true, false, Text, Result, ok, err, ◌≡◌, arith, if◌then◌else◌,
}

pub data Error : Type 0 where
  nil_raw_client nil_service : Error
  outside : Text → Error

-- A service: its client, and the once of its closing with the error that it kept.
pub record Service (R : Type 0) : Type 0 where
  pub raw : Option R
  pub closed : Bool
  pub close_err : Option Text

abbrev pub serve : {R : Type 0} → R → Service R
serve raw = record { raw = some raw; closed = false; close_err = none }

unfoldable pub wrap : {R : Type 0} → Option R → Result Error (Service R)
wrap none = err nil_raw_client
wrap (some raw) = ok (serve raw)

module _ {R : Type 0} where
  -- `Raw`, `Ping` and `Close`; a nil service is none.
  unfoldable pub raw_of : Option (Service R) → Option R
  raw_of none = none
  raw_of (some s) = s.raw

  unfoldable pub ping : (R → Option Text) → Option (Service R) → Option Error
  unfolding raw_of
  ping call s = elim (raw_of s) [
    | none ↦ some nil_service
    | some raw ↦ elim (call raw) [ none ↦ none | some e ↦ some (outside e) ]
  ]

  unfoldable pub close : (R → Option Text) → Service R → Option Text × Service R
  close call s = elim s.raw [
    | none ↦ (none, s)
    | some raw ↦
        let s' : Service R =
          if s.closed then s else record s { closed = true; close_err = call raw } in
        (s'.close_err, s')
  ]

  -- Closing again gives the error of the first time, and does not call the client again.
  pub close-close :
      (call call' : R → Option Text) (s : Service R) → close call' (close call s).1 ≡ close call s
  unfolding close
  close-close call call' s = ground arith
