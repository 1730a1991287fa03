-- ===== src/Errorx/Chain.antt =====
-- Go error values as far as errorx/error.go looks into them: the chain that `errors.As` walks.
-- A nil `*Error` inside an error value, at which the package's methods panic, is left out.
use finokit.Base.{List, [], ◌∷◌, ◌++◌, Option, none, some, Bool, ℤ, Text}

-- errorx.Definition
pub record Definition : Type 0 where
  pub code : ℤ
  pub message : Text
  pub count_in_sla : Bool
  pub http_status : ℤ

-- The fields of errorx.Error but its cause; `extra` is none for a nil map.
pub record Body : Type 0 where
  pub def : Definition
  pub message : Text
  pub extra : Option (List (Text × Text))
  pub stack : Text

mutual
  -- An error value: a leaf, `fmt.Errorf` with `%w`, `errors.Join`, or an `*errorx.Error` without or
  -- with a cause.
  pub data Chain : Type 0 where
    plain : Text → Chain
    wrapped : Text → Chain → Chain
    joined : Chains → Chain
    coded : Body → Chain
    coded_over : Body → Chain → Chain

  pub data Chains : Type 0 where
    nil : Chains
    cons : Chain → Chains → Chains

-- `*errorx.Error`
pub record Error : Type 0 where
  pub body : Body
  pub cause : Option Chain

-- An `*errorx.Error` as an error value.
unfoldable pub of_error : Error → Chain
of_error e = elim e.cause [ none ↦ coded e.body | some c ↦ coded_over e.body c ]

-- The first of two findings.
abbrev pub or_else : Option Error → Option Error → Option Error
or_else (some e) o = some e
or_else none o = o

unfoldable mutual
  -- `errors.As(err, &coded)`: the error itself, or else what it wraps, depth first.
  pub as_coded : Chain → Option Error
  as_coded (plain m) = none
  as_coded (wrapped m c) = as_coded c
  as_coded (joined cs) = as_coded_any cs
  as_coded (coded b) = some (record { body = b; cause = none })
  as_coded (coded_over b c) = some (record { body = b; cause = some c })

  pub as_coded_any : Chains → Option Error
  as_coded_any nil = none
  as_coded_any (cons c cs) = or_else (as_coded c) (as_coded_any cs)

unfoldable mutual
  -- `err.Error()`; `errors.Join` separates by newlines.
  pub error_text : Chain → Text
  error_text (plain m) = m
  error_text (wrapped m c) = m
  error_text (joined cs) = joined_text cs
  error_text (coded b) = b.message
  error_text (coded_over b c) = b.message

  pub joined_text : Chains → Text
  joined_text nil = []
  joined_text (cons c nil) = error_text c
  joined_text (cons c (cons d cs)) = error_text c ++ 10 ∷ joined_text (cons d cs)
