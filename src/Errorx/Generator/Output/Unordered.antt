-- ===== src/Errorx/Generator/Output/Unordered.antt =====
-- That the order of the inputs does not matter.
use finokit.Base.{
  List, [], ◌∷◌, ◌++◌, Option, none, some, Text, Result, ok, ◌>>=◌, ◌>>◌, refuse_if, not, is_empty,
  >>=-eq-ok, ok_injective, ◌≡◌, refl, sym, ap, ◌∙◌,
}
use finokit.Errorx.Generator.Output.{
  Error, System, unsupported_type, no_yaml_files, is_yaml_file, yaml_files, sort_texts,
  collect_each, collect_yaml_files, or_outside,
}
use finokit.Errorx.Generator.Output.Sorting.{sort_texts-swap, sort_texts-append}

-- One list is the other in another order.
pub data Reordered {A : Type 0} : List A → List A → Type 0 where
  none_left : Reordered [] []
  kept : (a : A) {l₁ l₂ : List A} → Reordered l₁ l₂ → Reordered (a ∷ l₁) (a ∷ l₂)
  swapped : (a b : A) (l : List A) → Reordered (a ∷ b ∷ l) (b ∷ a ∷ l)
  chained : {l₁ l₂ l₃ : List A} → Reordered l₁ l₂ → Reordered l₂ l₃ → Reordered l₁ l₃

module _ {W : Type 0} (sys : System W) where
  -- What an input gives, once it was listed.
  abbrev given : Text → Option (List Text) → Result Error (List Text)
  given input none = refuse_if (not (is_yaml_file sys input)) unsupported_type >> ok (input ∷ [])
  given input (some paths) =
      refuse_if (is_empty (yaml_files sys paths)) no_yaml_files >> ok (yaml_files sys paths)

  -- How an input that was collected counts, whatever inputs come behind it.
  Collected : Text → List Text → Type 0
  Collected a f =
      (is rest : List Text)
      → collect_each sys is ≡ ok rest
      → collect_each sys (a ∷ is) ≡ ok (f ++ rest)

  -- A list that does begin with the input, in terms of what the input gives.
  collect_listed :
      (a : Text) (info : Option (List Text)) (is : List Text)
      → or_outside (sys.list_below a) ≡ ok info
      → collect_each sys (a ∷ is)
        ≡ given a info >>= (λ f. collect_each sys is >>= (λ rest. ok (f ++ rest)))
  unfolding collect_each
  collect_listed a none is listed = rw (collect_each, listed) refl
  collect_listed a (some paths) is listed = rw (collect_each, listed) refl

  collect_cons :
      (a : Text) (is fs : List Text)
      → collect_each sys (a ∷ is) ≡ ok fs
      → (f : List Text) × (rest : List Text) × (collect_each sys is ≡ ok rest)
        × (fs ≡ f ++ rest)
        × Collected a f
  unfolding collect_each Collected
  collect_cons a is fs went =
      let (info, listed, behind) = >>=-eq-ok (or_outside (sys.list_below a)) _ went in
      let (f, found, after) =
        >>=-eq-ok (given a info) (λ f. collect_each sys is >>= (λ rest. ok (f ++ rest)))
          (sym (collect_listed a info is listed) ∙ went) in
      let (rest, collected, ends) =
        >>=-eq-ok (collect_each sys is) (λ rest. ok (f ++ rest)) after in
      (
        f,
        rest,
        collected,
        sym (ok_injective ends),
        λ is' rest' later. collect_listed a info is' listed ∙ rw (found, later) refl,
      )

  reordered_lem :
      {is is' : List Text}
      → Reordered is is'
      → (fs : List Text) → collect_each sys is ≡ ok fs
      → (fs' : List Text) × (collect_each sys is' ≡ ok fs') × (sort_texts fs ≡ sort_texts fs')
  unfolding Collected
  reordered_lem none_left fs went = (fs, went, refl)
  reordered_lem (kept a {l₁ = is} {l₂ = is'} same) fs went =
      let (f, rest, collected, e, again) = collect_cons a is fs went in
      let (rest', collected', sorted) = reordered_lem same rest collected in
      (
        f ++ rest',
        again is' rest' collected',
        ap sort_texts e ∙ sort_texts-append f rest rest' sorted,
      )
  reordered_lem (swapped a b is) fs went =
      let (f, rest, collected, e, again) = collect_cons a (b ∷ is) fs went in
      let (g, rest', collected', e', again') = collect_cons b is rest collected in
      (
        g ++ (f ++ rest'),
        again' (a ∷ is) (f ++ rest') (again is rest' collected'),
        ap sort_texts (e ∙ ap (f ++◌) e') ∙ sort_texts-swap f g rest',
      )
  reordered_lem (chained first second) fs went =
      let (fs', went', same) = reordered_lem first fs went in
      let (fs'', went'', same') = reordered_lem second fs' went' in (fs'', went'', same ∙ same')

  -- When the inputs can be collected, then they can be in any other order too, and the files are the same
  -- and in the same order.
  pub collect_yaml_files-Reordered :
      (is is' files : List Text)
      → Reordered is is'
      → collect_yaml_files sys is ≡ ok files
      → collect_yaml_files sys is' ≡ ok files
  unfolding collect_yaml_files
  collect_yaml_files-Reordered is is' files same went =
      let (fs, collected, ends) = >>=-eq-ok (collect_each sys is) _ went in
      let (fs', collected', sorted) = reordered_lem same fs collected in
      rw (collect_yaml_files, collected') (ap ok (sym sorted) ∙ ends)
