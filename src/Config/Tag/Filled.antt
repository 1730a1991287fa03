-- ===== src/Config/Tag/Filled.antt =====
-- What `Load` leaves in a structure.
use mathlib.Core.Path.{subst}
use finokit.Base.{
  none, Text, is_empty, ◌≡◌, refl, ap, sym, arith, inl, inr, Option-cases, if◌then◌else◌,
}
use finokit.Config.Tag.{Value, Fields, nil, field, struct, Parsers, field_set, process_value, load}

module _ {C F : Type 0} (p : Parsers C F) where
  -- Every field, at any depth, was left where it has no tag, and set from its tag where it has one.
  abbrev pub IsFilled : Fields C F → Fields C F → Type 0
  IsFilled nil nil = Unit
  IsFilled nil (field tag v rest) = ⊥
  IsFilled nil (struct inner rest) = ⊥
  IsFilled (field tag v rest) nil = ⊥
  IsFilled (field tag v rest) (field tag' v' rest') =
      (tag' ≡ tag)
      × ((if is_empty tag then (none, v) else field_set p v tag) ≡ (none, v'))
      × IsFilled rest rest'
  IsFilled (field tag v rest) (struct inner' rest') = ⊥
  IsFilled (struct inner rest) nil = ⊥
  IsFilled (struct inner rest) (field tag' v' rest') = ⊥
  IsFilled (struct inner rest) (struct inner' rest') = IsFilled inner inner' × IsFilled rest rest'

  load-field :
      (tag : Text) (v : Value C F) (rest : Fields C F)
      → (load p (field tag v rest)).0 ≡ none
      → ((process_value p tag v).0 ≡ none)
        × ((load p rest).0 ≡ none)
        × ((load p (field tag v rest)).1 ≡ field tag (process_value p tag v).1 (load p rest).1)
  unfolding load
  load-field tag v rest h = elim (Option-cases (process_value p tag v).0) [
    | inr (e, bad) ↦ absurd (ground arith)
    | inl good ↦ (good, ground arith, rw (load, good) refl)
  ]

  load-struct :
      (inner rest : Fields C F)
      → (load p (struct inner rest)).0 ≡ none
      → ((load p inner).0 ≡ none)
        × ((load p rest).0 ≡ none)
        × ((load p (struct inner rest)).1 ≡ struct (load p inner).1 (load p rest).1)
  unfolding load
  load-struct inner rest h = elim (Option-cases (load p inner).0) [
    | inr (e, bad) ↦ absurd (ground arith)
    | inl good ↦ (good, ground arith, rw (load, good) refl)
  ]

  -- When `Load` returns no error, every field of the structure, however deep, holds what its tag is
  -- parsed to by the field's type, and a field without a tag holds what it held.
  pub load-IsFilled : (fs : Fields C F) → (load p fs).0 ≡ none → IsFilled fs (load p fs).1
  unfolding load process_value
  load-IsFilled nil h = tt
  load-IsFilled (field tag v rest) h =
      let (set_, rest_set, result) = load-field tag v rest h in
      subst (IsFilled (field tag v rest)) (sym result)
        (refl, ap (λ e. (e, (process_value p tag v).1)) set_, load-IsFilled rest rest_set)
  load-IsFilled (struct inner rest) h =
      let (inner_set, rest_set, result) = load-struct inner rest h in
      subst (IsFilled (struct inner rest)) (sym result)
        (load-IsFilled inner inner_set, load-IsFilled rest rest_set)
