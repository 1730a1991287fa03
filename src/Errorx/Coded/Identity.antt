-- ===== src/Errorx/Coded/Identity.antt =====
-- Which definition an error of errorx/ belongs to, behind any wrapping.
use finokit.Base.{
  List, [], ◌∷◌, Option, none, some, false, ◌≡◌, refl, ap, ◌∙◌, arith, pos, ◌≤ℤ◌, eqb_ℤ, Text, All,
  is_empty, trim_space, Bool-cases, inl, inr,
}
use finokit.Errorx.Chain.{Definition, Error, Chain, wrapped, of_error, as_coded}
use finokit.Errorx.Options.{
  Setting, apply_options, with_extra, with_message_param, with_extra_message, without_stack,
}
use finokit.Errorx.Coded.{
  definition_status_code, new_error, new, wrap, from, definition_is, status_code, normalized,
  default_message,
}

-- An option that leaves the definition and the cause of an error alone.
abbrev pub KeepsOrigin : Setting → Type 0
KeepsOrigin opt = (e : Error) → ((opt e).body.def ≡ e.body.def) × ((opt e).cause ≡ e.cause)

pub with_extra-KeepsOrigin : (m : Option (List (Text × Text))) → KeepsOrigin (with_extra m)
unfolding with_extra
with_extra-KeepsOrigin none e = (refl, refl)
with_extra-KeepsOrigin (some m) e = (refl, refl)

pub with_message_param-KeepsOrigin : (k v : Text) → KeepsOrigin (with_message_param k v)
unfolding with_message_param
with_message_param-KeepsOrigin [] v e = (refl, refl)
with_message_param-KeepsOrigin (c ∷ k) v e = (refl, refl)

pub with_extra_message-KeepsOrigin : (m : Text) → KeepsOrigin (with_extra_message m)
unfolding with_extra_message
with_extra_message-KeepsOrigin [] e = (refl, refl)
with_extra_message-KeepsOrigin (c ∷ m) e = (refl, refl)

pub without_stack-KeepsOrigin : KeepsOrigin without_stack
unfolding without_stack
without_stack-KeepsOrigin e = (refl, refl)

apply_options-KeepsOrigin :
    (opts : List Setting) (e : Error)
    → All KeepsOrigin opts
    → ((apply_options e opts).body.def ≡ e.body.def) × ((apply_options e opts).cause ≡ e.cause)
unfolding apply_options
apply_options-KeepsOrigin [] e h = (refl, refl)
apply_options-KeepsOrigin (opt ∷ opts) e (keeps, h) =
    let (d, c) = apply_options-KeepsOrigin opts (opt e) h in (d ∙ (keeps e).0, c ∙ (keeps e).1)

-- `fmt.Errorf("...: %w", err)`, once for each message, the last one innermost
abbrev pub in_context : List Text → Chain → Chain
in_context [] c = c
in_context (m ∷ ms) c = wrapped m (in_context ms c)

from-in_context : (ms : List Text) (e : Error) → from (some (in_context ms (of_error e))) ≡ some e
unfolding from as_coded of_error
from-in_context [] e = ground arith
from-in_context (m ∷ ms) e = from-in_context ms e

definition_is-from :
    (err : Option Chain) (other : Definition) (e : Error) (def : Definition)
    → from err ≡ some e
    → e.body.def ≡ normalized def
    → definition_is other err ≡ eqb_ℤ def.code other.code
unfolding definition_is normalized
definition_is-from err other e def h k =
    ap (elim [ none ↦ false | some coded ↦ eqb_ℤ coded.body.def.code other.code ]) h
    ∙ ap (λ (d : Definition). eqb_ℤ d.code other.code) k

-- An error made by `New` or `Wrap` with the package's options, however often it is wrapped again
-- by `fmt.Errorf`, is an error of exactly the definitions with the code that it was made with; the
-- codes of the cause do not count.
pub definition_is_lem :
    (stack : Text) (def other : Definition) (cause : Chain) (opts : List Setting) (ms : List Text)
    → All KeepsOrigin opts
    → (definition_is other (some (in_context ms (new stack def opts))) ≡ eqb_ℤ def.code other.code)
      × ((err : Chain) × (wrap stack def (some cause) opts ≡ some err)
          × (definition_is other (some (in_context ms err)) ≡ eqb_ℤ def.code other.code))
unfolding new wrap
definition_is_lem stack def other cause opts ms h = (
  definition_is-from _ other _ def (from-in_context ms _)
      (unfold new_error in (apply_options-KeepsOrigin opts (new_error stack def none) h).0),
  (
    of_error (apply_options (new_error stack def (some cause)) opts),
    refl,
    definition_is-from _ other _ def (from-in_context ms _) (
        unfold new_error in
        (apply_options-KeepsOrigin opts (new_error stack def (some cause)) h).0),
  ),
)

definition_status_code_bounds :
    (def : Definition)
    → (pos 100 ≤ℤ definition_status_code def) × (definition_status_code def ≤ℤ pos 599)
unfolding definition_status_code
definition_status_code_bounds def = ground arith

definition_status_code-normalized :
    (def : Definition) → definition_status_code (normalized def) ≡ definition_status_code def
unfolding normalized
definition_status_code-normalized def = ground arith

status_code-def :
    (e : Error) (def : Definition)
    → e.body.def ≡ normalized def
    → status_code (some e) ≡ definition_status_code def
unfolding status_code
status_code-def e def h = rw h (definition_status_code-normalized def)

-- `Wrap` makes no error of a nil cause; of any other it makes an error that unwraps to the cause,
-- and whose HTTP status is from 100 to 599: the definition's where that lies in the range, or 500.
pub wrap_lem :
    (stack : Text) (def : Definition) (cause : Chain) (opts : List Setting)
    → All KeepsOrigin opts
    → (wrap stack def none opts ≡ none)
      × ((e : Error) × (from (wrap stack def (some cause) opts) ≡ some e)
          × (e.cause ≡ some cause)
          × (status_code (some e) ≡ definition_status_code def)
          × (pos 100 ≤ℤ status_code (some e))
          × (status_code (some e) ≤ℤ pos 599))
unfolding wrap
wrap_lem stack def cause opts h =
    let e = apply_options (new_error stack def (some cause)) opts in
    let kept = apply_options-KeepsOrigin opts (new_error stack def (some cause)) h in
    let status = status_code-def e def (unfold new_error in kept.0) in
    let bounds = definition_status_code_bounds def in
    (
      refl,
      (
        e,
        from-in_context [] e,
        unfold new_error in kept.1,
        status,
        rw status bounds.0,
        rw status bounds.1,
      ),
    )

default_message-trimmed : trim_space default_message ≡ default_message
unfolding trim_space
default_message-trimmed = refl

-- Normalizing a definition twice is normalizing it once.
pub normalized_idem : (def : Definition) → normalized (normalized def) ≡ normalized def
unfolding normalized
normalized_idem def = elim (Bool-cases (is_empty (trim_space def.message))) [
  | inl e ↦ ground (arith, default_message-trimmed)
  | inr e ↦ ground arith
]
