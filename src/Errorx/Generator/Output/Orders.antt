-- ===== src/Errorx/Generator/Output/Orders.antt =====
-- `Generate` on the same inputs in another order.
use finokit.Base.{
  List, [], ◌∷◌, ◌++◌, Text, is_empty, trim_space, if◌then◌else◌, Result, ok, err, ◌≡◌, refl, sym,
  ap, ◌∙◌, inl, inr, Result-cases,
}
use finokit.Errorx.Generator.{Config, InputFile, validate_config, with_defaults}
use finokit.Errorx.Generator.Output.{
  Error, System, collect_yaml_files, prepare, build_go_code, generate_go_code, write_each,
  write_all, generate, generate_markdown,
}
use finokit.Errorx.Generator.Output.Unordered.{
  Reordered, none_left, kept, swapped, chained, collect_yaml_files-Reordered,
}

is_empty-Reordered : {is is' : List Text} → Reordered is is' → is_empty is ≡ is_empty is'
is_empty-Reordered none_left = refl
is_empty-Reordered (kept a same) = refl
is_empty-Reordered (swapped a b l) = refl
is_empty-Reordered (chained first second) = is_empty-Reordered first ∙ is_empty-Reordered second

validate_config_inputs :
    (cfg : Config) (is' : List Text)
    → is_empty cfg.inputs ≡ is_empty is'
    → validate_config (record cfg { inputs = is' }) ≡ validate_config cfg
unfolding validate_config
validate_config_inputs cfg is' same = rw (same) refl

module _ {W : Type 0} (sys : System W) where
  prepare_inputs :
      (cfg : Config) (is' : List Text)
      → is_empty cfg.inputs ≡ is_empty is'
      → collect_yaml_files sys is' ≡ collect_yaml_files sys cfg.inputs
      → prepare sys (record cfg { inputs = is' }) ≡ prepare sys cfg
  unfolding prepare
  prepare_inputs cfg is' same collected = rw (validate_config_inputs cfg is' same, collected) refl

  -- How the writing of a file goes on with that of the later ones.
  abbrev then_write :
      Result Error Text × W → Result Error (List Text) × W → Result Error (List Text) × W
  then_write (r, w') (rs, w'') = elim r [
    | err e ↦ (err e, w')
    | ok path ↦ (elim rs [ err e ↦ err e | ok paths ↦ ok (path ∷ paths) ], w'')
  ]

  write_each_inputs :
      (fs : List InputFile) (cfg : Config) (is' : List Text) (w : W)
      → write_each sys fs (record cfg { inputs = is' }) w ≡ write_each sys fs cfg w
  unfolding write_each generate_go_code build_go_code
  write_each_inputs [] cfg is' w = refl
  write_each_inputs (f ∷ fs) cfg is' w =
      let rest = write_each_inputs fs cfg is' (generate_go_code sys f cfg w).1 in
      ap (then_write (generate_go_code sys f cfg w)) rest

  -- How the writing of the files goes on with that of the document.
  abbrev then_document :
      List InputFile → Config → Result Error (List Text) × W → Result Error (List Text) × W
  then_document fs cfg (r, w') = elim r [
    | err e ↦ (err e, w')
    | ok paths ↦
        if is_empty (trim_space cfg.doc_output)
        then (ok paths, w')
        else let (d, w'') = generate_markdown sys fs cfg.doc_output w' in
          (elim d [ err e ↦ err e | ok path ↦ ok (paths ++ path ∷ []) ], w'')
  ]

  write_all_inputs :
      (fs : List InputFile) (cfg : Config) (is' : List Text) (w : W)
      → write_all sys fs (record cfg { inputs = is' }) w ≡ write_all sys fs cfg w
  unfolding write_all
  write_all_inputs fs cfg is' w = ap (then_document fs cfg) (write_each_inputs fs cfg is' w)

  generate-ok :
      (cfg : Config) (fs : List InputFile) (w : W)
      → prepare sys (with_defaults cfg) ≡ ok fs
      → generate sys cfg w ≡ write_all sys fs (with_defaults cfg) w
  unfolding generate
  generate-ok cfg fs w prepared = rw (generate, prepared) refl

  generate-err :
      (cfg : Config) (e : Error) (w : W)
      → prepare sys (with_defaults cfg) ≡ err e
      → generate sys cfg w ≡ (err e, w)
  unfolding generate
  generate-err cfg e w refused = rw (generate, refused) refl

  -- Inputs that can be collected, in any other order: `Generate` does the same on them, so that the files
  -- it writes, their contents, the document and the paths it returns do not depend on the order.
  pub generate-Reordered :
      (cfg : Config) (is' files : List Text) (w : W)
      → Reordered cfg.inputs is'
      → collect_yaml_files sys cfg.inputs ≡ ok files
      → generate sys (record cfg { inputs = is' }) w ≡ generate sys cfg w
  unfolding with_defaults
  generate-Reordered cfg is' files w same collected =
      let full = with_defaults cfg in
      let collected' = collect_yaml_files-Reordered sys cfg.inputs is' files same collected in
      let prepared =
        prepare_inputs full is' (is_empty-Reordered same) (collected' ∙ sym collected) in
      elim (Result-cases (prepare sys full)) [
        | inl (fs, fine) ↦
            generate-ok (record cfg { inputs = is' }) fs w (prepared ∙ fine)
            ∙ write_all_inputs fs full is' w
            ∙ sym (generate-ok cfg fs w fine)
        | inr (e, bad) ↦
            generate-err (record cfg { inputs = is' }) e w (prepared ∙ bad)
            ∙ sym (generate-err cfg e w bad)
      ]
