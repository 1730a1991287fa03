-- ===== src/Errorx/Generator/Specs.antt =====
-- What `validateSpec` of errorx/generator/generator.go accepts.
use finokit.Base.{
  List, [], ◌∷◌, map, true, false, ◌≡◌, ◌⊎◌, ◌↔◌, refl, arith, ok, ℤ, pos, ◌≤ℤ◌, Text, text_key,
  int_key, is_empty, All, Distinct, has_key, insert, AllNew, AllNew-insert, AllNew-nil,
}
use finokit.Errorx.Generator.{Definition, File, is_exported_ident, check_definitions, validate_spec}

-- What a definition must be by itself.
pub record IsValidDefinition (d : Definition) : Type 0 where
  pub exported : is_exported_ident d.name ≡ true
  pub code_low : pos 1 ≤ℤ d.code
  pub code_high : d.code ≤ℤ pos 9999
  pub status : (d.http_status ≡ pos 0) ⊎ ((pos 100 ≤ℤ d.http_status) × (d.http_status ≤ℤ pos 599))

abbrev pub names : List Definition → List Text
names = map (λ d. d.name)

abbrev pub codes : List Definition → List ℤ
codes = map (λ d. d.code)

-- What a specification must be.
pub record IsValidSpec (spec : File) : Type 0 where
  pub app_low : pos 1 ≤ℤ spec.app_code
  pub app_high : spec.app_code ≤ℤ pos 9
  pub biz_low : pos 1 ≤ℤ spec.biz_code
  pub biz_high : spec.biz_code ≤ℤ pos 9999
  pub some_codes : is_empty spec.error_code ≡ false
  pub each : All IsValidDefinition spec.error_code
  pub names_distinct : Distinct (names spec.error_code)
  pub codes_distinct : Distinct (codes spec.error_code)

-- One round of the loop.
accepts_one :
    (d : Definition) (ds : List Definition) (ns : List (Text × Unit {0})) (cs : List (ℤ × Unit {0}))
    → (check_definitions (d ∷ ds) ns cs ≡ ok tt) ↔ (
        IsValidDefinition d
        × (has_key d.name ns ≡ false)
        × (has_key d.code cs ≡ false)
        × (check_definitions ds (insert d.name tt ns) (insert d.code tt cs) ≡ ok tt))
unfolding check_definitions
accepts_one d ds ns cs = (
  λ h. (
    record {
      exported = ground arith;
      code_low = ground arith;
      code_high = ground arith;
      status = ground arith;
    },
    ground arith,
    ground arith,
    ground arith,
  ),
  λ (v, n, c, rest). ground arith,
)

check_definitions_iff :
    (ds : List Definition) (ns : List (Text × Unit {0})) (cs : List (ℤ × Unit {0}))
    → (check_definitions ds ns cs ≡ ok tt) ↔ (
        All IsValidDefinition ds
        × (Distinct (names ds) × AllNew ns (names ds))
        × (Distinct (codes ds) × AllNew cs (codes ds)))
check_definitions_iff [] ns cs =
    (λ _. (tt, (tt, tt), (tt, tt)), λ _. unfold check_definitions in refl)
check_definitions_iff (d ∷ ds) ns cs =
    let ih = check_definitions_iff ds (insert d.name tt ns) (insert d.code tt cs) in
    let one = accepts_one d ds ns cs in
    let fresh_names = AllNew-insert d.name tt ns (names ds) in
    let fresh_codes = AllNew-insert d.code tt cs (codes ds) in
    (
      λ h.
          let (v, n, c, rest) = one.0 h in
          let (vs, (dn, nn), (dc, nc)) = ih.0 rest in
          let (an, bn) = fresh_names.0 nn in
          let (ac, bc) = fresh_codes.0 nc in ((v, vs), ((an, dn), (n, bn)), ((ac, dc), (c, bc))),
      λ ((v, vs), ((an, dn), (n, bn)), ((ac, dc), (c, bc))).
          one.1 (v, n, c, ih.1 (vs, (dn, fresh_names.1 (an, bn)), (dc, fresh_codes.1 (ac, bc)))),
    )

-- `validateSpec` accepts exactly the specifications with an app code from 1 to 9, a biz code from
-- 1 to 9999 and at least one definition, in which each definition has an exported Go name, a code
-- from 1 to 9999 and a status of 0 or from 100 to 599, and no name and no code stands twice.
pub validate_spec_iff : (spec : File) → (validate_spec spec ≡ ok tt) ↔ IsValidSpec spec
unfolding validate_spec
validate_spec_iff spec =
    let loop = check_definitions_iff spec.error_code [] [] in
    (
      λ h.
          let (each, (dn, _), (dc, _)) = loop.0 (ground arith) in
          record {
            app_low = ground arith;
            app_high = ground arith;
            biz_low = ground arith;
            biz_high = ground arith;
            some_codes = ground arith;
            each = each;
            names_distinct = dn;
            codes_distinct = dc;
          },
      λ v.
          let passed = loop.1 (
            v.each,
            (v.names_distinct, AllNew-nil (Unit {0}) (names spec.error_code)),
            (v.codes_distinct, AllNew-nil (Unit {0}) (codes spec.error_code)),
          ) in
          ground arith,
    )
