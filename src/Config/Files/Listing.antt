-- ===== src/Config/Files/Listing.antt =====
-- Which files `collectFileSources` returns, and in which order.
use finokit.Base.{
  ℕ, ◌+◌, List, [], ◌∷◌, ◌++◌, Option, some, Bool, true, false, Text, ltb_text, if◌then◌else◌, ◌≡◌,
  refl, ◌∙◌, arith, inl, inr, Bool-cases,
}
use finokit.Config.Files.{
  Tree, nil, file, dir, insert_file, insert_dir, sort_tree, Paths, is_wanted, collect_entries,
  collect_file_sources,
}

-- How many texts of a list satisfy a test.
unfoldable pub count : (Text → Bool) → List Text → ℕ
count q [] = 0
count q (s ∷ ss) = (if q s then 1 else 0) + count q ss

count-append : (q : Text → Bool) (a b : List Text) → count q (a ++ b) ≡ count q a + count q b
unfolding count
count-append q [] b = omega arith
count-append q (s ∷ a) b = ground (arith, count-append q a b)

ltb_text_asymm : (s t : Text) → ltb_text s t ≡ true → ltb_text t s ≡ false
unfolding ltb_text
ltb_text_asymm [] [] h = cc
ltb_text_asymm [] (d ∷ t) h = refl
ltb_text_asymm (c ∷ s) [] h = cc
ltb_text_asymm (c ∷ s) (d ∷ t) h = ground (arith, ltb_text_asymm s t)

-- The first entry of a listing is not before a name.
abbrev pub Follows : Text → Tree → Type 0
Follows m nil = Unit
Follows m (file n t) = ltb_text n m ≡ false
Follows m (dir n c t) = ltb_text n m ≡ false

-- The entries of a directory, and of each directory below it, stand in the order of their names.
abbrev pub IsSorted : Tree → Type 0
IsSorted nil = Unit
IsSorted (file n t) = Follows n t × IsSorted t
IsSorted (dir n c t) = Follows n t × IsSorted c × IsSorted t

insert_file-Follows :
    (m n : Text) (t : Tree) → ltb_text n m ≡ false → Follows m t → Follows m (insert_file n t)
unfolding insert_file
insert_file-Follows m n nil h f = h
insert_file-Follows m n (file k t) h f = elim (Bool-cases (ltb_text k n)) [
  | inl e ↦ rw e f
  | inr e ↦ rw e h
]
insert_file-Follows m n (dir k c t) h f = elim (Bool-cases (ltb_text k n)) [
  | inl e ↦ rw e f
  | inr e ↦ rw e h
]

insert_dir-Follows :
    (m n : Text) (d t : Tree) → ltb_text n m ≡ false → Follows m t → Follows m (insert_dir n d t)
unfolding insert_dir
insert_dir-Follows m n d nil h f = h
insert_dir-Follows m n d (file k t) h f = elim (Bool-cases (ltb_text k n)) [
  | inl e ↦ rw e f
  | inr e ↦ rw e h
]
insert_dir-Follows m n d (dir k c t) h f = elim (Bool-cases (ltb_text k n)) [
  | inl e ↦ rw e f
  | inr e ↦ rw e h
]

insert_file-IsSorted : (n : Text) (t : Tree) → IsSorted t → IsSorted (insert_file n t)
unfolding insert_file
insert_file-IsSorted n nil s = (tt, tt)
insert_file-IsSorted n (file k t) (f, s) = elim (Bool-cases (ltb_text k n)) [
  | inl e ↦ rw e (insert_file-Follows k n t (ltb_text_asymm k n e) f, insert_file-IsSorted n t s)
  | inr e ↦ rw e (e, (f, s))
]
insert_file-IsSorted n (dir k c t) (f, c_sorted, s) = elim (Bool-cases (ltb_text k n)) [
  | inl e ↦
      rw e
        (insert_file-Follows k n t (ltb_text_asymm k n e) f, c_sorted, insert_file-IsSorted n t s)
  | inr e ↦ rw e (e, (f, c_sorted, s))
]

insert_dir-IsSorted :
    (n : Text) (d t : Tree) → IsSorted d → IsSorted t → IsSorted (insert_dir n d t)
unfolding insert_dir
insert_dir-IsSorted n d nil ds s = (tt, ds, tt)
insert_dir-IsSorted n d (file k t) ds (f, s) = elim (Bool-cases (ltb_text k n)) [
  | inl e ↦
      rw e (insert_dir-Follows k n d t (ltb_text_asymm k n e) f, insert_dir-IsSorted n d t ds s)
  | inr e ↦ rw e (e, ds, (f, s))
]
insert_dir-IsSorted n d (dir k c t) ds (f, cs, s) = elim (Bool-cases (ltb_text k n)) [
  | inl e ↦
      rw e (insert_dir-Follows k n d t (ltb_text_asymm k n e) f, cs, insert_dir-IsSorted n d t ds s)
  | inr e ↦ rw e (e, ds, (f, cs, s))
]

sort_tree-IsSorted : (t : Tree) → IsSorted (sort_tree t)
unfolding sort_tree
sort_tree-IsSorted nil = tt
sort_tree-IsSorted (file n t) = insert_file-IsSorted n (sort_tree t) (sort_tree-IsSorted t)
sort_tree-IsSorted (dir n c t) =
    insert_dir-IsSorted n (sort_tree c) (sort_tree t) (sort_tree-IsSorted c) (sort_tree-IsSorted t)

-- The files of a directory, with their paths: those below it too, where wanted.
unfoldable pub files_of : Paths → Text → Bool → Tree → List (Text × Text)
files_of p path deep nil = []
files_of p path deep (file n t) = (n, p.join path n) ∷ files_of p path deep t
files_of p path deep (dir n c t) =
    (if deep then files_of p (p.join path n) true c else []) ++ files_of p path deep t

-- How many of some files are wanted and have a path that satisfies a test.
unfoldable pub count_wanted : Paths → Text → (Text → Bool) → List (Text × Text) → ℕ
unfolding is_wanted
count_wanted p env q [] = 0
count_wanted p env q ((n, path) ∷ fs) =
    (if is_wanted p env n then if q path then 1 else 0 else 0) + count_wanted p env q fs

module _ (p : Paths) (env : Text) (q : Text → Bool) where
  count_wanted-append :
      (a b : List (Text × Text))
      → count_wanted p env q (a ++ b) ≡ count_wanted p env q a + count_wanted p env q b
  unfolding count_wanted
  count_wanted-append [] b = omega arith
  count_wanted-append ((n, path) ∷ a) b = ground (arith, count_wanted-append a b)

  -- The number of wanted files of a tree, and what an insertion adds to it.
  abbrev total : Text → Bool → Tree → ℕ
  total path deep t = count_wanted p env q (files_of p path deep t)

  total-insert_file :
      (path n : Text) (deep : Bool) (t : Tree)
      → total path deep (insert_file n t) ≡ total path deep (file n t)
  unfolding insert_file files_of count_wanted
  total-insert_file path n deep nil = refl
  total-insert_file path n deep (file k t) = ground (arith, total-insert_file path n deep t)
  total-insert_file path n deep (dir k c t) =
      let below = if deep then files_of p (p.join path k) true c else [] in
      ground (
        arith,
        total-insert_file path n deep t,
        count_wanted-append below (files_of p path deep (insert_file n t)),
        count_wanted-append below (files_of p path deep t),
      )

  total-insert_dir :
      (path n : Text) (deep : Bool) (d t : Tree)
      → total path deep (insert_dir n d t) ≡ total path deep (dir n d t)
  unfolding insert_dir files_of count_wanted
  total-insert_dir path n deep d nil = refl
  total-insert_dir path n deep d (file k t) =
      let new = if deep then files_of p (p.join path n) true d else [] in
      ground (
        arith,
        total-insert_dir path n deep d t,
        count_wanted-append new (files_of p path deep t),
        count_wanted-append new ((k, p.join path k) ∷ files_of p path deep t),
      )
  total-insert_dir path n deep d (dir k c t) =
      let new = if deep then files_of p (p.join path n) true d else [] in
      let old = if deep then files_of p (p.join path k) true c else [] in
      ground (
        arith,
        total-insert_dir path n deep d t,
        count_wanted-append new (files_of p path deep t),
        count_wanted-append new (old ++ files_of p path deep t),
        count_wanted-append old (files_of p path deep t),
        count_wanted-append old (files_of p path deep (insert_dir n d t)),
      )

  total-sort_tree :
      (path : Text) (deep : Bool) (t : Tree) → total path deep (sort_tree t) ≡ total path deep t
  unfolding sort_tree files_of count_wanted
  total-sort_tree path deep nil = refl
  total-sort_tree path deep (file n t) =
      total-insert_file path n deep (sort_tree t) ∙ ground (arith, total-sort_tree path deep t)
  total-sort_tree path deep (dir n c t) =
      let sorted = if deep then files_of p (p.join path n) true (sort_tree c) else [] in
      let plain = if deep then files_of p (p.join path n) true c else [] in
      total-insert_dir path n deep (sort_tree c) (sort_tree t)
      ∙ ground (
        arith,
        total-sort_tree path deep t,
        total-sort_tree (p.join path n) true c,
        count_wanted-append sorted (files_of p path deep (sort_tree t)),
        count_wanted-append plain (files_of p path deep t),
      )

  count-collect_entries :
      (path : Text) (deep : Bool) (t : Tree)
      → count q (collect_entries p path env deep t) ≡ total path deep t
  unfolding collect_entries files_of count_wanted count
  count-collect_entries path deep nil = refl
  count-collect_entries path deep (file n t) = ground (arith, count-collect_entries path deep t)
  count-collect_entries path deep (dir n c t) =
      let below = collect_entries p (p.join path n) env true c in
      let plain = if deep then files_of p (p.join path n) true c else [] in
      ground (
        arith,
        count-collect_entries path deep t,
        count-collect_entries (p.join path n) true c,
        count-append q below (collect_entries p path env deep t),
        count_wanted-append plain (files_of p path deep t),
      )

  -- `collectFileSources` of a directory returns, in whatever order the system lists its entries, what
  -- the loop returns on the listing sorted by name, at each level; and every file of the directory, or
  -- below it where the search is recursive, whose suffix is supported and whose name ends in the
  -- environment's, is a source as often as it is listed, and no other file is.
  pub collect_file_sources_lem :
      (read_dir : Text → Option Tree) (path : Text) (deep : Bool) (t : Tree)
      → read_dir path ≡ some t
      → (collect_file_sources p read_dir path env deep
          ≡ collect_entries p path env deep (sort_tree t))
        × IsSorted (sort_tree t)
        × (count q (collect_file_sources p read_dir path env deep)
            ≡ count_wanted p env q (files_of p path deep t))
  unfolding collect_file_sources
  collect_file_sources_lem read_dir path deep t reads = (
    ground arith,
    sort_tree-IsSorted t,
    ground (arith, count-collect_entries path deep (sort_tree t), total-sort_tree path deep t),
  )
