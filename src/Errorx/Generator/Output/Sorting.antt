-- ===== src/Errorx/Generator/Output/Sorting.antt =====
-- That sorting texts forgets the order they come in.
use finokit.Base.{
  List, [], ◌∷◌, ◌++◌, true, false, Text, ltb_text, ◌≡◌, refl, sym, ap, ◌∙◌, inl, inr, Bool-cases,
  arith, if◌then◌else◌,
}
use finokit.Errorx.Generator.Output.{insert_text, sort_texts}

ltb_text_asym : (s t : Text) → ltb_text s t ≡ true → ltb_text t s ≡ false
unfolding ltb_text
ltb_text_asym [] [] h = refl
ltb_text_asym [] (d ∷ t) h = refl
ltb_text_asym (c ∷ s) [] h = cc
ltb_text_asym (c ∷ s) (d ∷ t) h = ground (arith, ltb_text_asym s t)

ltb_text_total : (s t : Text) → ltb_text s t ≡ false → ltb_text t s ≡ false → s ≡ t
unfolding ltb_text
ltb_text_total [] [] h k = refl
ltb_text_total [] (d ∷ t) h k = cc
ltb_text_total (c ∷ s) [] h k = cc
ltb_text_total (c ∷ s) (d ∷ t) h k = ground (arith, ltb_text_total s t)

-- From t ≤ x < s.
ltb_text_trans : (t x s : Text) → ltb_text x t ≡ false → ltb_text x s ≡ true → ltb_text t s ≡ true
unfolding ltb_text
ltb_text_trans [] [] s h k = k
ltb_text_trans [] (d ∷ x) [] h k = cc
ltb_text_trans [] (d ∷ x) (e ∷ s) h k = refl
ltb_text_trans (c ∷ t) [] s h k = cc
ltb_text_trans (c ∷ t) (d ∷ x) [] h k = cc
ltb_text_trans (c ∷ t) (d ∷ x) (e ∷ s) h k = ground (arith, ltb_text_trans t x s)

-- Two texts before a rest that stays behind both.
insert_front :
    (s t : Text) (xs : List Text)
    → (if ltb_text t s then t ∷ s ∷ xs else s ∷ t ∷ xs)
      ≡ (if ltb_text s t then s ∷ t ∷ xs else t ∷ s ∷ xs)
insert_front s t xs = elim (Bool-cases (ltb_text t s)) [
  | inl later ↦ rw (later, ltb_text_asym t s later) refl
  | inr early ↦ elim (Bool-cases (ltb_text s t)) [
    | inl before ↦ rw (early, before) refl
    | inr equal ↦ rw (early, equal, ltb_text_total s t equal early) refl
  ]
]

insert_after :
    (s x : Text) (xs : List Text)
    → ltb_text x s ≡ true
    → insert_text s (x ∷ xs) ≡ x ∷ insert_text s xs
unfolding insert_text
insert_after s x xs h = rw (insert_text, h) refl

insert_before :
    (s x : Text) (xs : List Text) → ltb_text x s ≡ false → insert_text s (x ∷ xs) ≡ s ∷ x ∷ xs
unfolding insert_text
insert_before s x xs h = rw (insert_text, h) refl

insert_between :
    (s t x : Text) (xs : List Text)
    → ltb_text x s ≡ true
    → ltb_text x t ≡ false
    → insert_text s (insert_text t (x ∷ xs)) ≡ insert_text t (insert_text s (x ∷ xs))
insert_between s t x xs after before =
    ap (insert_text s) (insert_before t x xs before)
    ∙ insert_after s t (x ∷ xs) (ltb_text_trans t x s before after)
    ∙ ap (t ∷◌) (insert_after s x xs after)
    ∙ sym (insert_before t x (insert_text s xs) before)
    ∙ ap (insert_text t) (sym (insert_after s x xs after))

insert_both_before :
    (s t x : Text) (xs : List Text)
    → ltb_text x s ≡ false
    → ltb_text x t ≡ false
    → insert_text s (insert_text t (x ∷ xs))
      ≡ (if ltb_text t s then t ∷ s ∷ x ∷ xs else s ∷ t ∷ x ∷ xs)
insert_both_before s t x xs before_s before_t =
    ap (insert_text s) (insert_before t x xs before_t) ∙ elim (Bool-cases (ltb_text t s)) [
      | inl h ↦ rw (h) (insert_after s t (x ∷ xs) h ∙ ap (t ∷◌) (insert_before s x xs before_s))
      | inr h ↦ rw (h) (insert_before s t (x ∷ xs) h)
    ]

insert_text_comm :
    (s t : Text) (xs : List Text)
    → insert_text s (insert_text t xs) ≡ insert_text t (insert_text s xs)
unfolding insert_text
insert_text_comm s t [] = insert_front s t []
insert_text_comm s t (x ∷ xs) =
    let rest = insert_text_comm s t xs in
    elim (Bool-cases (ltb_text x s)) [
      | inl after_s ↦ elim (Bool-cases (ltb_text x t)) [
        | inl after_t ↦
            ap (insert_text s) (insert_after t x xs after_t)
            ∙ insert_after s x (insert_text t xs) after_s
            ∙ ap (x ∷◌) rest
            ∙ sym (insert_after t x (insert_text s xs) after_t)
            ∙ ap (insert_text t) (sym (insert_after s x xs after_s))
        | inr before_t ↦ insert_between s t x xs after_s before_t
      ]
      | inr before_s ↦ elim (Bool-cases (ltb_text x t)) [
        | inl after_t ↦ sym (insert_between t s x xs after_t before_s)
        | inr before_t ↦
            insert_both_before s t x xs before_s before_t
            ∙ insert_front s t (x ∷ xs)
            ∙ sym (insert_both_before t s x xs before_t before_s)
      ]
    ]

-- What is sorted does not depend on where a part stands.
insert-sort_texts :
    (s : Text) (xs ys : List Text)
    → insert_text s (sort_texts (xs ++ ys)) ≡ sort_texts (xs ++ s ∷ ys)
unfolding sort_texts
insert-sort_texts s [] ys = refl
insert-sort_texts s (x ∷ xs) ys =
    insert_text_comm s x (sort_texts (xs ++ ys)) ∙ ap (insert_text x) (insert-sort_texts s xs ys)

pub sort_texts-swap :
    (xs ys zs : List Text) → sort_texts (xs ++ (ys ++ zs)) ≡ sort_texts (ys ++ (xs ++ zs))
unfolding sort_texts
sort_texts-swap [] ys zs = refl
sort_texts-swap (x ∷ xs) ys zs =
    ap (insert_text x) (sort_texts-swap xs ys zs) ∙ insert-sort_texts x ys (xs ++ zs)

pub sort_texts-append :
    (xs ys zs : List Text)
    → sort_texts ys ≡ sort_texts zs
    → sort_texts (xs ++ ys) ≡ sort_texts (xs ++ zs)
unfolding sort_texts
sort_texts-append [] ys zs same = same
sort_texts-append (x ∷ xs) ys zs same = ap (insert_text x) (sort_texts-append xs ys zs same)
