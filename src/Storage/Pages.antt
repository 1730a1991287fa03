-- ===== src/Storage/Pages.antt =====
-- What a page of a listing holds, and which objects may be written.
use mathlib.Core.List.{append-nil, append_assoc}
use finokit.Base.{
  ℕ, zero, suc, ◌+◌, List, [], ◌∷◌, ◌++◌, map, Option, none, some, true, false, Text, is_empty,
  length, length-append, take, drop, All, ok, ℤ, pos, eqb_ℤ, eqb_ℤ_iff, ◌≤ℤ◌, ◌≡◌, ◌↔◌, ◌⊎◌, inl,
  inr, refl, arith, Bool-cases,
}
use finokit.Storage.{
  Error, Object, ObjectInfo, ListResult, collect_from, collect_list_page, validate_write_object,
}

abbrev pub IsFound : ObjectInfo → Type 0
IsFound i = i.failure ≡ none

abbrev pub objects_of : List ObjectInfo → List Object
objects_of = map (λ i. i.object)

-- The key of the first entry, or the empty token.
abbrev pub token_of : List ObjectInfo → Text
token_of [] = []
token_of (i ∷ is) = i.object.key

collect_from-stopped :
    (n : ℕ) (result : ListResult) (e : Option Error) (is : List ObjectInfo)
    → collect_from n true result e is ≡ (result, e)
unfolding collect_from
collect_from-stopped n result e [] = refl
collect_from-stopped n result e (i ∷ is) = collect_from-stopped n result e is

-- With room for k + 1 more objects.
collect_from-room :
    (n k : ℕ) (acc : List Object) (is : List ObjectInfo)
    → length acc + suc k ≡ n
    → All IsFound is
    → collect_from n false (record { objects = acc; next_page_token = [] }) none is ≡ (
      record {
        objects = acc ++ objects_of (take (suc k) is);
        next_page_token = token_of (drop k is);
      },
      none,
    )
unfolding collect_from
collect_from-room n zero acc [] room found = ground (arith, append-nil acc)
collect_from-room n (suc k) acc [] room found = ground (arith, append-nil acc)
collect_from-room n zero acc (i ∷ is) room (here, found) = ground (
  arith,
  here,
  length-append acc (i.object ∷ []),
  collect_from-stopped n (record { objects = acc ++ i.object ∷ []; next_page_token = i.object.key })
      none is,
)
collect_from-room n (suc k) acc (i ∷ is) room (here, found) = ground (
  arith,
  here,
  length-append acc (i.object ∷ []),
  append_assoc acc (i.object ∷ []) (objects_of (take (suc k) is)),
  collect_from-room n k (acc ++ i.object ∷ []) is
      (ground (arith, length-append acc (i.object ∷ []))) found,
)

-- Where no entry of the listing failed, a page holds its first 1000 objects in order, and its token is
-- the key of the last of them, or empty where the listing is shorter.
pub collect_list_page_lem :
    (is : List ObjectInfo)
    → All IsFound is
    → collect_list_page is ≡ (
      record { objects = objects_of (take 1000 is); next_page_token = token_of (drop 999 is) },
      none,
    )
unfolding collect_list_page
collect_list_page_lem is found = collect_from-room 1000 999 [] is refl found

-- An object is accepted, under a size, just when it has a key, its content is not longer than the
-- limit, its size is zero or its content's length, and the size is that length.
pub validate_write_object_iff :
    (limit : ℤ) (o : Object) (size : ℤ)
    → (validate_write_object limit (some o) ≡ ok size) ↔ (
        (is_empty o.key ≡ false)
        × (size ≡ pos (length o.content))
        × (size ≤ℤ limit)
        × ((o.size ≡ pos 0) ⊎ (o.size ≡ pos (length o.content))))
unfolding validate_write_object
validate_write_object_iff limit o size = (
  λ h. elim (Bool-cases (eqb_ℤ o.size (pos 0))) [
    | inl zero_size ↦ (
      ground (arith, eqb_ℤ_iff o.size (pos 0), eqb_ℤ_iff o.size (pos (length o.content))),
      ground (arith, eqb_ℤ_iff o.size (pos 0), eqb_ℤ_iff o.size (pos (length o.content))),
      ground (arith, eqb_ℤ_iff o.size (pos 0), eqb_ℤ_iff o.size (pos (length o.content))),
      inl ((eqb_ℤ_iff o.size (pos 0)).0 zero_size),
    )
    | inr given ↦ (
      ground (arith, eqb_ℤ_iff o.size (pos 0), eqb_ℤ_iff o.size (pos (length o.content))),
      ground (arith, eqb_ℤ_iff o.size (pos 0), eqb_ℤ_iff o.size (pos (length o.content))),
      ground (arith, eqb_ℤ_iff o.size (pos 0), eqb_ℤ_iff o.size (pos (length o.content))),
      inr (ground (arith, eqb_ℤ_iff o.size (pos 0), eqb_ℤ_iff o.size (pos (length o.content)))),
    )
  ],
  λ (k, s, l, z). elim (Bool-cases (eqb_ℤ o.size (pos 0))) [
    | inl zero_size ↦
        ground (arith, eqb_ℤ_iff o.size (pos 0), eqb_ℤ_iff o.size (pos (length o.content)))
    | inr given ↦
        ground (arith, eqb_ℤ_iff o.size (pos 0), eqb_ℤ_iff o.size (pos (length o.content)))
  ],
)
