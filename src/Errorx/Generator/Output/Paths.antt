-- ===== src/Errorx/Generator/Output/Paths.antt =====
-- What `Generate` returns, and that it writes nothing before everything is validated.
use mathlib.Core.Path.{subst}
use mathlib.Core.List.{append-nil}
use finokit.Errorx.Generator.Markdown.{markdown}
use finokit.Base.{
  List, [], ◌∷◌, ◌++◌, map, All, Text, text, is_empty, trim_space, Result, ok, err, >>=-eq-ok,
  ok_injective, ◌≡◌, refl, ap, sym, ◌∙◌, arith, ◌⊎◌, inl, inr, Bool-cases, Option-cases,
  Result-cases, if◌then◌else◌,
}
use finokit.Errorx.Generator.{
  Config, InputFile, with_defaults, validate_config, validate_spec, validate_input_files,
}
use finokit.Errorx.Generator.Output.{
  System, Error, or_invalid, or_outside, collect_yaml_files, load_each, prepare, build_go_code,
  generate_go_code, write_each, generate_markdown, write_all, generate,
}

or_invalid-ok : {A : Type 0} {r : Result _ A} {a : A} → or_invalid r ≡ ok a → r ≡ ok a
or_invalid-ok {r = ok a} h = ground arith
or_invalid-ok {r = err e} h = cc

module _ {W : Type 0} (sys : System W) where
  -- The paths of the Go files.
  abbrev pub go_paths : Config → List InputFile → List Text
  go_paths cfg = map (λ f. sys.join cfg.output_dir (f.file_name ++ text ".go"))

  abbrev pub doc_paths : Config → List Text
  doc_paths cfg = if is_empty (trim_space cfg.doc_output) then [] else cfg.doc_output ∷ []

  -- Every specification passed its validation.
  abbrev pub IsValid : List InputFile → Type 0
  IsValid = All (λ f. validate_spec f.spec ≡ ok tt)

  load_each-IsValid :
      (paths : List Text) (fs : List InputFile) → load_each sys paths ≡ ok fs → IsValid fs
  unfolding load_each
  load_each-IsValid [] fs h = subst IsValid (ok_injective h) tt
  load_each-IsValid (path ∷ paths) fs h =
      let (spec, loaded, r) = >>=-eq-ok (or_outside (sys.load_spec path)) _ h in
      let (u, valid, r') = >>=-eq-ok (or_invalid (validate_spec spec)) _ r in
      let (rest, loaded_rest, same) = >>=-eq-ok (load_each sys paths) _ r' in
      subst IsValid (ok_injective same)
        (or_invalid-ok valid, load_each-IsValid paths rest loaded_rest)

  generate_go_code-ok :
      (f : InputFile) (cfg : Config) (w : W) (path : Text)
      → (generate_go_code sys f cfg w).0 ≡ ok path
      → path ≡ sys.join cfg.output_dir (f.file_name ++ text ".go")
  unfolding generate_go_code
  generate_go_code-ok f cfg w path h =
      elim (Result-cases (build_go_code sys f.biz_name f.spec cfg)) [
        | inr (e, bad) ↦ absurd (ground arith)
        | inl (source, built) ↦
            elim (Option-cases
              (sys.write_file (sys.join cfg.output_dir (f.file_name ++ text ".go")) source w).0) [
                | inr (e, bad) ↦ absurd (ground arith)
                | inl done ↦ ground arith
              ]
      ]

  write_each-ok :
      (fs : List InputFile) (cfg : Config) (w : W) (paths : List Text)
      → (write_each sys fs cfg w).0 ≡ ok paths
      → paths ≡ go_paths cfg fs
  unfolding write_each
  write_each-ok [] cfg w paths h = sym (ok_injective h)
  write_each-ok (f ∷ fs) cfg w paths h = elim (Result-cases (generate_go_code sys f cfg w).0) [
    | inr (e, bad) ↦ absurd (ground arith)
    | inl (path, made) ↦
        elim (Result-cases (write_each sys fs cfg (generate_go_code sys f cfg w).1).0) [
          | inr (e, bad) ↦ absurd (ground arith)
          | inl (rest, written) ↦
              let here = generate_go_code-ok f cfg w path made in
              let later = write_each-ok fs cfg (generate_go_code sys f cfg w).1 rest written in
              let both : paths ≡ path ∷ rest = ground arith in
              both ∙ ap (◌∷◌ path) later ∙ ap (λ p. p ∷ go_paths cfg fs) here
        ]
  ]

  generate_markdown-ok :
      (fs : List InputFile) (doc : Text) (w : W) (path : Text)
      → (generate_markdown sys fs doc w).0 ≡ ok path
      → path ≡ doc
  unfolding generate_markdown
  generate_markdown-ok fs doc w path h =
      elim (Option-cases (sys.write_file doc (markdown sys.base sys.equal_fold sys.lower fs) w).0) [
        | inr (e, bad) ↦ absurd (ground arith)
        | inl done ↦ ground arith
      ]

  write_all-ok :
      (fs : List InputFile) (cfg : Config) (w : W) (paths : List Text)
      → (write_all sys fs cfg w).0 ≡ ok paths
      → paths ≡ go_paths cfg fs ++ doc_paths cfg
  unfolding write_all
  write_all-ok fs cfg w paths h = elim (Result-cases (write_each sys fs cfg w).0) [
    | inr (e, bad) ↦ absurd (ground arith)
    | inl (go, written) ↦
        let made = write_each-ok fs cfg w go written in
        elim (Bool-cases (is_empty (trim_space cfg.doc_output))) [
          | inl no_doc ↦
              let same : paths ≡ go = ground arith in
              let nothing : doc_paths cfg ≡ [] = rw no_doc refl in
              same
              ∙ made
              ∙ sym (ap (λ d. go_paths cfg fs ++ d) nothing ∙ append-nil (go_paths cfg fs))
          | inr doc ↦
              elim (Result-cases
                (generate_markdown sys fs cfg.doc_output (write_each sys fs cfg w).1).0) [
                  | inr (e, bad) ↦ absurd (ground arith)
                  | inl (path, drawn) ↦
                      let same : paths ≡ go ++ path ∷ [] = ground arith in
                      let asked : doc_paths cfg ≡ cfg.doc_output ∷ [] = rw doc refl in
                      let there =
                        generate_markdown-ok fs cfg.doc_output (write_each sys fs cfg w).1 path
                          drawn in
                      same
                      ∙ ap (λ g. g ++ path ∷ []) made
                      ∙ ap (λ p. go_paths cfg fs ++ p ∷ []) there
                      ∙ sym (ap (λ d. go_paths cfg fs ++ d) asked)
                ]
        ]
  ]

  refused :
      (given : Config) (w : W) (e : Error)
      → prepare sys (with_defaults given) ≡ err e
      → generate sys given w ≡ (err e, w)
  unfolding generate
  refused given w e bad = rw (generate, bad) refl

  written :
      (given : Config) (w : W) (fs : List InputFile)
      → prepare sys (with_defaults given) ≡ ok fs
      → ((e : Error) × ((generate sys given w).0 ≡ err e))
        ⊎ ((generate sys given w).0
            ≡ ok (go_paths (with_defaults given) fs ++ doc_paths (with_defaults given)))
  unfolding generate
  written given w fs prepared =
      let writes : generate sys given w ≡ write_all sys fs (with_defaults given) w =
        rw (generate, prepared) refl in
      elim (Result-cases (write_all sys fs (with_defaults given) w).0) [
        | inr (e, bad) ↦ inl (e, ap (λ r. r.0) writes ∙ bad)
        | inl (paths, done) ↦ inr (
            ap (λ r. r.0) writes
            ∙ done
            ∙ ap ok (write_all-ok fs (with_defaults given) w paths done))
      ]

  -- What a call of `Generate` gave: a failure before the files are validated together, at that, or after.
  abbrev pub Generated : Config → W → Type 0
  Generated given w =
      let cfg = with_defaults given in
      ((e : Error) × (generate sys given w ≡ (err e, w))
        × ((or_invalid (validate_config cfg) ≡ err e)
            ⊎ ((collect_yaml_files sys cfg.inputs ≡ err e)
                ⊎ ((paths : List Text) × (collect_yaml_files sys cfg.inputs ≡ ok paths)
                    × (load_each sys paths ≡ err e)))))
      ⊎ ((paths : List Text) × (fs : List InputFile) × (validate_config cfg ≡ ok tt)
          × (collect_yaml_files sys cfg.inputs ≡ ok paths)
          × (load_each sys paths ≡ ok fs)
          × IsValid fs
          × (((e : Error) × (or_invalid (validate_input_files fs) ≡ err e)
                × (generate sys given w ≡ (err e, w)))
              ⊎ ((validate_input_files fs ≡ ok tt)
                  × (((e : Error) × ((generate sys given w).0 ≡ err e))
                      ⊎ ((generate sys given w).0 ≡ ok (go_paths cfg fs ++ doc_paths cfg))))))

  -- `Generate` returns an error and has written nothing where the configuration is refused, the files
  -- cannot be found, or one of them cannot be loaded or is refused. Otherwise, with the files that were
  -- loaded: where they are refused together, it returns an error and has written nothing; else it
  -- fails, or returns the path of each file's Go code in the output directory, in the order of the
  -- files, and behind them that of the document where one is asked for.
  pub generate_lem : (given : Config) (w : W) → Generated given w
  unfolding prepare
  generate_lem given w =
      let cfg = with_defaults given in
      elim (Result-cases (or_invalid (validate_config cfg))) [
        | inr (e, bad) ↦ inl (e, refused given w e (ground arith), inl bad)
        | inl (u, fine) ↦ elim (Result-cases (collect_yaml_files sys cfg.inputs)) [
          | inr (e, bad) ↦ inl (e, refused given w e (ground arith), inr (inl bad))
          | inl (paths, found) ↦ elim (Result-cases (load_each sys paths)) [
            | inr (e, bad) ↦
                inl (e, refused given w e (ground arith), inr (inr (paths, found, bad)))
            | inl (fs, loaded) ↦ inr (
              paths,
              fs,
              or_invalid-ok fine,
              found,
              loaded,
              load_each-IsValid paths fs loaded,
              elim (Result-cases (or_invalid (validate_input_files fs))) [
                | inr (e, bad) ↦ inl (e, bad, refused given w e (ground arith))
                | inl (u', together) ↦
                    inr (or_invalid-ok together, written given w fs (ground arith))
              ],
            )
          ]
        ]
      ]
