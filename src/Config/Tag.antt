-- ===== src/Config/Tag.antt =====
-- config/tag/tag.go: the defaults that a structure's tags give. A structure is its exported fields, and
-- the parsers of strconv and time are arguments.
pub mod Filled
use finokit.Base.{
  ℕ, List, [], ◌∷◌, Option, none, some, Bool, true, false, Text, is_empty, split, ℤ, if◌then◌else◌,
  Result, ok, err,
}

-- The value of a field, by the kinds that the code tells apart. A custom value is one that sets itself
-- (`flag.Value`), none where it is nil.
pub data Value (C F : Type 0) : Type 0 where
  custom : Option C → Value C F
  boolean : Bool → Value C F
  int : ℤ → Value C F
  string : Text → Value C F
  strings : List Text → Value C F
  ints : List ℤ → Value C F
  float : F → Value C F
  duration : ℤ → Value C F
  int64 : ℤ → Value C F
  unsupported : Value C F

-- The fields of a structure, each with its tag or with the fields of a structure of its own.
pub data Fields (C F : Type 0) : Type 0 where
  nil : Fields C F
  field : Text → Value C F → Fields C F → Fields C F
  struct : Fields C F → Fields C F → Fields C F

pub data Error : Type 0 where
  unsupported_type : Error
  outside : Text → Error

pub record Parsers (C F : Type 0) : Type 0 where
  pub zero_custom : C
  pub set_custom : Text → C → Option Text × C
  pub parse_bool : Text → Result Text Bool
  pub atoi : Text → Result Text ℤ
  pub parse_float : Text → Result Text F
  pub parse_duration : Text → Result Text ℤ
  pub parse_int : Text → Result Text ℤ

module _ {C F : Type 0} (p : Parsers C F) where
  unfoldable pub atoi_each : List Text → Result Text (List ℤ)
  atoi_each [] = ok []
  atoi_each (s ∷ ss) =
      let rest = atoi_each ss in
      elim (p.atoi s) [ err e ↦ err e | ok i ↦ elim rest [ err e ↦ err e | ok is ↦ ok (i ∷ is) ] ]

  abbrev pub assign :
      {A : Type 0} → (A → Value C F) → Value C F → Result Text A → Option Error × Value C F
  assign make old (ok a) = (none, make a)
  assign make old (err e) = (some (outside e), old)

  -- `fieldSet`; a custom value that is nil is made first, and keeps what its `Set` did of it.
  unfoldable pub field_set : Value C F → Text → Option Error × Value C F
  unfolding atoi_each split
  field_set (custom c) v =
      let (e, c') = p.set_custom v (elim c [ none ↦ p.zero_custom | some x ↦ x ]) in
      (elim e [ none ↦ none | some x ↦ some (outside x) ], custom (some c'))
  field_set (boolean b) v = assign boolean (boolean b) (p.parse_bool v)
  field_set (int i) v = assign int (int i) (p.atoi v)
  field_set (string s) v = (none, string v)
  field_set (strings ss) v = (none, strings (split v b','))
  field_set (ints is) v = assign ints (ints is) (atoi_each (split v b','))
  field_set (float f) v = assign float (float f) (p.parse_float v)
  field_set (duration d) v = assign duration (duration d) (p.parse_duration v)
  field_set (int64 i) v = assign int64 (int64 i) (p.parse_int v)
  field_set unsupported v = (some unsupported_type, unsupported)

  -- What `processField` does of a field that is no structure.
  unfoldable pub process_value : Text → Value C F → Option Error × Value C F
  unfolding field_set
  process_value tag value = if is_empty tag then (none, value) else field_set value tag

  -- `Load` and the recursion of `processField`: the fields in their order, up to the first error.
  unfoldable pub load : Fields C F → Option Error × Fields C F
  unfolding process_value
  load nil = (none, nil)
  load (field tag value rest) =
      let (e, value') = process_value tag value in
      let (e', rest') = load rest in
      elim e [ some x ↦ (some x, field tag value' rest) | none ↦ (e', field tag value' rest') ]
  load (struct inner rest) =
      let (e, inner') = load inner in
      let (e', rest') = load rest in
      elim e [ some x ↦ (some x, struct inner' rest) | none ↦ (e', struct inner' rest') ]
