-- ===== src/Storage/Client/Listing.antt =====
-- Listing a bucket to its end: a caller asks for the page behind each token until the token is empty.
use mathlib.Core.List.{append_assoc, map-append}
use mathlib.Core.Path.{subst}
use finokit.Base.{
  ℕ, zero, suc, ◌+◌, ◌*◌, ◌/◌, ◌<◌, ◌≤◌, List, [], ◌∷◌, ◌++◌, Option, none, some, false, Text,
  is_empty, length, take, drop, All, ok, err, ◌≡◌, refl, ap, sym, ◌∙◌, arith, ◌⊎◌, inl, inr,
  if◌then◌else◌,
}
use finokit.Storage.{Config, Object, ObjectInfo, list_page_size, collect_list_page}
use finokit.Storage.Pages.{IsFound, objects_of, token_of, collect_list_page_lem}
use finokit.Storage.Requests.{RequestOptions, with_page_token}
use finokit.Storage.Client.{Access, Minio, bucket_of, finish_list, list}

module _ (P : ObjectInfo → Type 0) where
  All-split :
      (xs : List ObjectInfo) (i : ObjectInfo) (ys : List ObjectInfo)
      → All P (xs ++ i ∷ ys)
      → P i × All P ys
  All-split [] i ys h = h
  All-split (x ∷ xs) i ys (_, h) = All-split xs i ys h

module _ {St : Type 0} (minio : Minio St) (ctx : Option Text) (cfg : Config Access) (prefix : Text)
    (o : RequestOptions) (s : St) where
  -- The objects of the pages behind a token, asked for at most so many times; none where that did not
  -- reach the end, or a page failed.
  unfoldable pub follow : ℕ → Text → Option (List Object)
  unfolding list with_page_token
  follow zero token = none
  follow (suc k) token = elim (list minio ctx cfg prefix (with_page_token token o) s) [
    | err e ↦ none
    | ok page ↦
        let rest = follow k page.next_page_token in
        if is_empty page.next_page_token
        then some page.objects
        else elim rest [ none ↦ none | some objects ↦ some (page.objects ++ objects) ]
  ]

  abbrev pub behind : Text → List ObjectInfo
  behind token = minio.list_objects (bucket_of cfg o) prefix list_page_size token s

  -- The server lists these entries, and behind the key of one those that come after it.
  abbrev pub Lists : List ObjectInfo → Type 0
  Lists all =
      (behind [] ≡ all)
      × ((before : List ObjectInfo) (i : ObjectInfo) (after : List ObjectInfo)
          → all ≡ before ++ i ∷ after
          → behind i.object.key ≡ after)

  abbrev pub IsNamed : ObjectInfo → Type 0
  IsNamed i = is_empty i.object.key ≡ false

  list_lem :
      (token : Text) (rest : List ObjectInfo)
      → behind token ≡ rest
      → All IsFound rest
      → list minio ctx cfg prefix (with_page_token token o) s
        ≡ ok (record {
          objects = objects_of (take 1000 rest);
          next_page_token = token_of (drop 999 rest);
        })
  unfolding list with_page_token bucket_of
  list_lem token rest lists found =
      ap (finish_list ctx) (ap collect_list_page lists ∙ collect_list_page_lem rest found)

  drop-cases :
      (n : ℕ) (rest : List ObjectInfo)
      → ((length rest ≤ n) × (drop n rest ≡ []) × (take (suc n) rest ≡ rest))
        ⊎ ((i : ObjectInfo) × (after : List ObjectInfo) × (drop n rest ≡ i ∷ after)
            × (rest ≡ take n rest ++ i ∷ after)
            × (take (suc n) rest ≡ take n rest ++ i ∷ [])
            × (length rest ≡ n + suc (length after)))
  drop-cases zero [] = inl (omega arith, refl, refl)
  drop-cases zero (i ∷ rest) = inr (i, rest, refl, refl, refl, omega arith)
  drop-cases (suc n) [] = inl (omega arith, refl, refl)
  drop-cases (suc n) (j ∷ rest) = elim (drop-cases n rest) [
    | inl (short, nothing, all) ↦ inl (omega (arith, short), nothing, ap (◌∷◌ j) all)
    | inr (i, after, split, whole, taken, size) ↦
        inr (i, after, split, ap (◌∷◌ j) whole, ap (◌∷◌ j) taken, omega (arith, size))
  ]

  follow-last :
      (k : ℕ) (token : Text) (objects : List Object)
      → list minio ctx cfg prefix (with_page_token token o) s
        ≡ ok (record { objects = objects; next_page_token = [] })
      → follow (suc k) token ≡ some objects
  unfolding follow
  follow-last k token objects listed = rw (follow, listed) refl

  follow-more :
      (k : ℕ) (token next : Text) (objects later : List Object)
      → list minio ctx cfg prefix (with_page_token token o) s
        ≡ ok (record { objects = objects; next_page_token = next })
      → is_empty next ≡ false
      → follow k next ≡ some later
      → follow (suc k) token ≡ some (objects ++ later)
  unfolding follow
  follow-more k token next objects later listed more rest = rw (follow, listed, more, rest) refl

  module _ (all : List ObjectInfo) (lists : Lists all) where
    follow_lem :
        (k : ℕ) (token : Text) (before rest : List ObjectInfo)
        → all ≡ before ++ rest
        → behind token ≡ rest
        → All IsFound rest
        → All IsNamed rest
        → length rest < k * 1000
        → follow k token ≡ some (objects_of rest)
    follow_lem zero token before rest split here found named room = absurd (omega (arith, room))
    follow_lem (suc k) token before rest split here found named room = elim (drop-cases 999 rest) [
      | inl (short, nothing, whole) ↦
          follow-last k token (objects_of rest)
            (list_lem token rest here found ∙ ap ok (rw (whole, nothing) refl))
      | inr (i, after, split', whole, taken, size) ↦
          let cut : all ≡ (before ++ take 999 rest) ++ i ∷ after =
            split
            ∙ ap (λ r. before ++ r) whole
            ∙ sym (append_assoc before (take 999 rest) (i ∷ after)) in
          let joined : all ≡ ((before ++ take 999 rest) ++ i ∷ []) ++ after =
            cut ∙ sym (append_assoc (before ++ take 999 rest) (i ∷ []) after) in
          let pieces : objects_of (take 1000 rest) ++ objects_of after ≡ objects_of rest =
            sym (map-append (λ e. e.object) (take 1000 rest) after)
            ∙ ap objects_of (
                ap (λ r. r ++ after) taken
                ∙ append_assoc (take 999 rest) (i ∷ []) after
                ∙ sym whole) in
          let parts = All-split _ (take 999 rest) i after (subst (All IsFound) whole found) in
          let (keyed, named') =
            All-split _ (take 999 rest) i after (subst (All IsNamed) whole named) in
          let next =
            follow_lem k i.object.key (before ++ take 999 rest ++ i ∷ []) after joined
              (lists.1 (before ++ take 999 rest) i after cut) parts.1 named'
              (omega (arith, room, size)) in
          follow-more k token i.object.key (objects_of (take 1000 rest)) (objects_of after)
            (list_lem token rest here found
              ∙ ap ok (
                  ap
                    (λ is. record {
                      objects = objects_of (take 1000 rest);
                      next_page_token = token_of is;
                    })
                    split'))
            keyed next
          ∙ ap some pieces
    ]

    -- On a server that lists entries with keys that are not empty, none of them an error, and behind the
    -- key of an entry those that come after it: asking for a page, then for the page behind each token
    -- that `List` returns, comes to an empty token after at most one call more than there are thousands
    -- of entries, and the pages together hold every object of the listing once and in order.
    pub follow_ends :
        All IsFound all
        → All IsNamed all
        → follow (length all / 1000 + 1) [] ≡ some (objects_of all)
    follow_ends found named =
        follow_lem (length all / 1000 + 1) [] [] all refl lists.0 found named (omega arith)
