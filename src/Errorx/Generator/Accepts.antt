-- ===== src/Errorx/Generator/Accepts.antt =====
-- What `validateInputFiles` of errorx/generator/generator.go accepts.
use mathlib.Core.Path.{subst}
use finokit.Base.{
  List, [], ◌∷◌, ◌++◌, map, false, ◌≡◌, ◌↔◌, refl, arith, ok, refuse_if_iff, >>=-eq-ok, ℤ, Text,
  text, text_key, int_key, Distinct, has_key, insert, AllNew, AllNew-insert, AllNew-nil,
}
use finokit.Errorx.Generator.{
  Definition, InputFile, output_conflict, Seen, compose_error_code, output_name, check_across,
  check_files, validate_input_files,
}
use finokit.Errorx.Generator.Specs.{names}

-- The full codes of one file's definitions, and the names and full codes of all files.
abbrev pub full_codes : ℤ → ℤ → List Definition → List ℤ
full_codes app biz = map (λ d. compose_error_code app biz d.code)

abbrev pub all_names : List InputFile → List Text
all_names [] = []
all_names (f ∷ fs) = names f.spec.error_code ++ all_names fs

abbrev pub all_codes : List InputFile → List ℤ
all_codes [] = []
all_codes (f ∷ fs) = full_codes f.spec.app_code f.spec.biz_code f.spec.error_code ++ all_codes fs

-- Names, codes and output files that are distinct and new to the maps.
abbrev AreNew : List Text → List ℤ → List Text → Seen → Type 0
AreNew ns cs os seen =
    (Distinct ns × AllNew seen.names ns)
    × (Distinct cs × AllNew seen.codes cs)
    × (Distinct os × AllNew seen.files os)

module _ (path : Text) (app biz : ℤ) where
  abbrev noted : Definition → Seen → Seen
  noted d seen = record seen {
    names = insert d.name path seen.names;
    codes = insert (compose_error_code app biz d.code) (path ++ text ":" ++ d.name) seen.codes;
  }

  -- One round of the inner loop.
  across_one :
      (d : Definition) (ds : List Definition) (seen seen' : Seen)
      → (check_across path app biz (d ∷ ds) seen ≡ ok seen') ↔ (
          (has_key d.name seen.names ≡ false)
          × (has_key (compose_error_code app biz d.code) seen.codes ≡ false)
          × (check_across path app biz ds (noted d seen) ≡ ok seen'))
  unfolding check_across
  across_one d ds seen seen' =
      (λ h. (ground arith, ground arith, ground arith), λ (n, c, rest). ground arith)

  -- The inner loop in front of any further names, codes and files.
  across_iff :
      (ds : List Definition) (seen : Seen) (ns : List Text) (cs : List ℤ) (os : List Text)
      → ((seen' : Seen) × (check_across path app biz ds seen ≡ ok seen') × AreNew ns cs os seen')
        ↔ AreNew (names ds ++ ns) (full_codes app biz ds ++ cs) os seen
  across_iff [] seen ns cs os = (
    λ (seen', e, new).
        let same : seen' ≡ seen = unfold check_across in cc in subst (AreNew ns cs os) same new,
    λ new. (seen, unfold check_across in refl, new),
  )
  across_iff (d ∷ ds) seen ns cs os =
      let ih = across_iff ds (noted d seen) ns cs os in
      let fresh_names = AllNew-insert d.name path seen.names (names ds ++ ns) in
      let fresh_codes =
        AllNew-insert (compose_error_code app biz d.code) (path ++ text ":" ++ d.name) seen.codes
          (full_codes app biz ds ++ cs) in
      (
        λ (seen', e, new).
            let (n, c, rest) = (across_one d ds seen seen').0 e in
            let ((dn, nn), (dc, nc), o) = ih.0 (seen', rest, new) in
            let (an, bn) = fresh_names.0 nn in
            let (ac, bc) = fresh_codes.0 nc in (((an, dn), (n, bn)), ((ac, dc), (c, bc)), o),
        λ (((an, dn), (n, bn)), ((ac, dc), (c, bc)), o).
            let (seen', rest, new) =
              ih.1 ((dn, fresh_names.1 (an, bn)), (dc, fresh_codes.1 (ac, bc)), o) in
            (seen', (across_one d ds seen seen').1 (n, c, rest), new),
      )

files_one :
    (f : InputFile) (fs : List InputFile) (seen last : Seen)
    → (check_files (f ∷ fs) seen ≡ ok last) ↔ (
        (has_key (output_name f) seen.files ≡ false)
        × ((seen' : Seen) × (check_across f.path f.spec.app_code f.spec.biz_code f.spec.error_code
                (record seen { files = insert (output_name f) f.path seen.files })
              ≡ ok seen')
            × (check_files fs seen' ≡ ok last)))
unfolding check_files
files_one f fs seen last = (
  λ h.
      let (fresh, inner) =
        (refuse_if_iff (has_key (output_name f) seen.files) output_conflict _ last).0 h in
      (fresh, >>=-eq-ok _ (check_files fs) inner),
  λ (fresh, (seen', across, rest)). rw (fresh, across) rest,
)

check_files_iff :
    (fs : List InputFile) (seen : Seen)
    → ((last : Seen) × (check_files fs seen ≡ ok last))
      ↔ AreNew (all_names fs) (all_codes fs) (map output_name fs) seen
check_files_iff [] seen =
    (λ _. ((tt, tt), (tt, tt), (tt, tt)), λ _. (seen, unfold check_files in refl))
check_files_iff (f ∷ fs) seen =
    let opened : Seen = record seen { files = insert (output_name f) f.path seen.files } in
    let inner =
      across_iff f.path f.spec.app_code f.spec.biz_code f.spec.error_code opened (all_names fs)
        (all_codes fs) (map output_name fs) in
    let files = AllNew-insert (output_name f) f.path seen.files (map output_name fs) in
    (
      λ (last, e).
          let (fresh, (seen', across, rest)) = (files_one f fs seen last).0 e in
          let (ns, cs, (distinct, new)) =
            inner.0 (seen', across, (check_files_iff fs seen').0 (last, rest)) in
          let (apart, unseen) = files.0 new in (ns, cs, ((apart, distinct), (fresh, unseen))),
      λ (ns, cs, ((apart, distinct), (fresh, unseen))).
          let (seen', across, new) = inner.1 (ns, cs, (distinct, files.1 (apart, unseen))) in
          let (last, rest) = (check_files_iff fs seen').1 new in
          (last, (files_one f fs seen last).1 (fresh, (seen', across, rest))),
    )

-- `validateInputFiles` accepts exactly the lists of files in which no error name, no full error
-- code and no output file stands twice, within a file or across files.
pub validate_input_files_iff :
    (fs : List InputFile)
    → (validate_input_files fs ≡ ok tt)
      ↔ (Distinct (all_names fs) × Distinct (all_codes fs) × Distinct (map output_name fs))
unfolding validate_input_files
validate_input_files_iff fs =
    let start : Seen = record { files = []; names = []; codes = [] } in
    let loop = check_files_iff fs start in
    (
      λ h.
          let (last, e, _) = >>=-eq-ok (check_files fs start) (λ _. ok tt) h in
          let ((ns, _), (cs, _), (os, _)) = loop.0 (last, e) in (ns, cs, os),
      λ (ns, cs, os).
          let (last, e) = loop.1 (
            (ns, AllNew-nil Text (all_names fs)),
            (cs, AllNew-nil Text (all_codes fs)),
            (os, AllNew-nil Text (map output_name fs)),
          ) in
          rw e,
    )
