-- ===== src/Errorx/Coded/Contents.antt =====
-- The texts and the extra entries of an error of errorx/.
use finokit.Base.{
  ℕ, zero, suc, List, [], ◌∷◌, ◌++◌, Option, none, some, Bool, true, false, ◌==◌, ◌≡◌, ◌≢◌, ◌⊎◌,
  refl, ◌∙◌, arith, Text, text, text_key, is_empty, inl, inr, Bool-cases, Option-cases, take,
  has_prefix, index, trim_left, trim_end, trim_space, is_space, replace_all, replace_all-append,
  Lacks, lookup, insert_all, lookup-insert_all, HasDistinctKeys, first_some,
  insert_all-HasDistinctKeys, lookup-copy,
}
use finokit.Errorx.Chain.{Error, Chain, error_text}
use finokit.Errorx.Options.{with_extra, with_message_param, merged, placeholder}
use finokit.Errorx.Coded.{extra, cut_stack, error_without_stack}

-- `WithMessageParam` puts the value in the place of the first `{key}` of the message, and leaves
-- what stands before it alone if no `{` stands there.
pub with_message_param_lem :
    (e : Error) (key value pre post : Text)
    → key ≢ []
    → Lacks b'{' pre
    → e.body.message ≡ pre ++ placeholder key ++ post
    → (with_message_param key value e).body.message
      ≡ pre ++ value ++ replace_all post (placeholder key) value
unfolding with_message_param
with_message_param_lem e [] value pre post ne h m = absurd (ne refl)
with_message_param_lem e (c ∷ key) value pre post ne h m =
    rw m (replace_all-append b'{' pre (c ∷ key ++ text "}") post value h)

-- An entry of an option's map wins over one that the error had; the other entries stay.
abbrev pub entry : Text → Option (List (Text × Text)) → Option Text
entry k none = none
entry k (some m) = lookup k m

abbrev pub HasDistinctEntries : Option (List (Text × Text)) → Type 0
HasDistinctEntries none = Unit
HasDistinctEntries (some m) = HasDistinctKeys m

entry-merged :
    (o : Option (List (Text × Text))) (new : List (Text × Text)) (k : Text)
    → HasDistinctKeys new
    → HasDistinctEntries o
    → lookup k (insert_all (merged o new) []) ≡ first_some (lookup k new) (entry k o)
unfolding lookup
entry-merged none new k d o =
    lookup-copy (insert_all new []) k (insert_all-HasDistinctKeys new [] tt)
    ∙ lookup-insert_all new [] k d
entry-merged (some old) new k d o =
    lookup-copy (insert_all new old) k (insert_all-HasDistinctKeys new old o)
    ∙ lookup-insert_all new old k d

-- What `Extra` returns after `WithExtra`: the entries of the new map, and under the other keys
-- those that the error had before. No map holds a key twice.
pub entry-extra-with_extra :
    (e : Error) (new : List (Text × Text)) (k : Text)
    → HasDistinctKeys new
    → HasDistinctEntries e.body.extra
    → entry k (extra (with_extra (some new) e)) ≡ first_some (lookup k new) (entry k e.body.extra)
unfolding extra with_extra
entry-extra-with_extra e new k d o = entry-merged e.body.extra new k d o

-- A match in the part in front of a place is a match in the whole text.
has_prefix-take : (s p : Text) (n : ℕ) → has_prefix (take n s) p ≡ true → has_prefix s p ≡ true
unfolding has_prefix
has_prefix-take s [] n h = refl
has_prefix-take [] (d ∷ p) zero h = h
has_prefix-take [] (d ∷ p) (suc n) h = h
has_prefix-take (c ∷ s) (d ∷ p) zero h = cc
has_prefix-take (c ∷ s) (d ∷ p) (suc n) h = ground (arith, has_prefix-take s p n)

-- In front of the first match there is none.
index-take :
    (s p : Text) (i : ℕ) → is_empty p ≡ false → index s p ≡ some i → index (take i s) p ≡ none
unfolding index
index-take [] p i ne h = ground arith
index-take (c ∷ s) p zero ne h = ground arith
index-take (c ∷ s) p (suc i) ne h = elim (Option-cases (index s p)) [
  | inl e ↦ absurd (ground arith)
  | inr (j, e) ↦
      let same : j ≡ i = ground arith in
      let rest : index (take i s) p ≡ none = index-take s p i ne (rw same at e) in
      let no_match : has_prefix (c ∷ s) p ≡ false = ground arith in
      rw rest (elim (Bool-cases (has_prefix (c ∷ take i s) p)) [
        | inl hit ↦ cc (has_prefix-take (c ∷ s) p (suc i) hit)
        | inr miss ↦ rw miss
      ])
]

index-trim_left : (s p : Text) → index s p ≡ none → index (trim_left s) p ≡ none
unfolding index trim_left
index-trim_left [] p h = h
index-trim_left (c ∷ s) p h = ground (arith, index-trim_left s p)

module _ (q : ℕ → Bool) where
  has_prefix-trim_end : (s p : Text) → has_prefix (trim_end q s) p ≡ true → has_prefix s p ≡ true
  unfolding has_prefix trim_end
  has_prefix-trim_end s [] h = refl
  has_prefix-trim_end [] (d ∷ p) h = h
  has_prefix-trim_end (c ∷ s) (d ∷ p) h = ground (arith, has_prefix-trim_end s p)

  index-trim_end :
      (s p : Text) → is_empty p ≡ false → index s p ≡ none → index (trim_end q s) p ≡ none
  unfolding index trim_end
  index-trim_end [] p ne h = h
  index-trim_end (c ∷ s) p ne h =
      ground (arith, index-trim_end s p ne, has_prefix-trim_end (c ∷ s) p)

index-cut_stack :
    (msg : Text) (o : Option ℕ)
    → index msg (text "stack=") ≡ o
    → (index (cut_stack msg o) (text "stack=") ≡ none)
      × ((cut_stack msg o ≡ msg) ⊎ (index msg (text "stack=") ≢ none))
unfolding cut_stack
index-cut_stack msg none e = (e, inl refl)
index-cut_stack msg (some i) e =
    let cut = index-take msg (text "stack=") i refl e in
    let trimmed : index (trim_space (take i msg)) (text "stack=") ≡ none =
      unfold trim_space in
      index-trim_end is_space _ (text "stack=") refl
        (index-trim_left (take i msg) (text "stack=") cut) in
    (index-trim_end (λ c. c == 10) _ (text "stack=") refl trimmed, inr (λ h. cc))

-- `ErrorWithoutStack` returns a text without `stack=`; a message that has none is returned as it
-- is.
pub error_without_stack_lem :
    (err : Chain)
    → (index (error_without_stack (some err)) (text "stack=") ≡ none)
      × ((error_without_stack (some err) ≡ error_text err)
          ⊎ (index (error_text err) (text "stack=") ≢ none))
unfolding error_without_stack
error_without_stack_lem err =
    index-cut_stack (error_text err) (index (error_text err) (text "stack=")) refl
