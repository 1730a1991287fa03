-- ===== src/Base/Dict.antt =====
-- Go maps as association lists; the key's equality is a Boolean test with its law.
use Prim.Native.Nat.{ℕ}
use mathlib.Core.Path.{◌≡◌, refl, sym}
use mathlib.Core.Logic.{◌↔◌, inl, inr, ◌≢◌}
use mathlib.Core.Bool.{Bool, true, false, ◌||◌}
use mathlib.Core.List.{List, [], ◌∷◌}
use mathlib.Core.Option.{Option, none, some}
use native.Mathlib.Omega.{arith}
use finokit.Base.Tests.{◌==◌, ==_iff, if◌then◌else◌, Bool-cases}
use finokit.Base.Int.{ℤ, eqb_ℤ, eqb_ℤ_iff}
use finokit.Base.Lists.{All}
use finokit.Base.Strings.{Text, text_eq, text_eq_iff}

pub record Eq {ℓ} (A : Type ℓ) : Type ℓ where
  pub beq : A → A → Bool
  pub beq_iff : (a b : A) → (beq a b ≡ true) ↔ (a ≡ b)

instance abbrev pub nat_key : Eq ℕ
nat_key = record { beq = ◌==◌; beq_iff = ==_iff }

instance abbrev pub text_key : Eq Text
text_key = record { beq = text_eq; beq_iff = text_eq_iff }

instance abbrev pub int_key : Eq ℤ
int_key = record { beq = eqb_ℤ; beq_iff = eqb_ℤ_iff }

module _ {ℓ κ} {K : Type ℓ} {V : Type κ} ⦃e : Eq K⦄ where
  -- `v, ok := m[k]`
  unfoldable pub lookup : K → List (K × V) → Option V
  lookup k [] = none
  lookup k ((j, v) ∷ m) = if e.beq j k then some v else lookup k m

  -- `_, ok := m[k]`
  unfoldable pub has_key : K → List (K × V) → Bool
  has_key k [] = false
  has_key k ((j, v) ∷ m) = e.beq j k || has_key k m

  -- `m[k] = v`
  unfoldable pub insert : K → V → List (K × V) → List (K × V)
  insert k v [] = (k, v) ∷ []
  insert k v ((j, w) ∷ m) = if e.beq j k then (k, v) ∷ m else (j, w) ∷ insert k v m

  -- `delete(m, k)`
  unfoldable pub delete : K → List (K × V) → List (K × V)
  delete k [] = []
  delete k ((j, w) ∷ m) = if e.beq j k then delete k m else (j, w) ∷ delete k m

  -- `for k, v := range n { m[k] = v }`
  unfoldable pub insert_all : List (K × V) → List (K × V) → List (K × V)
  unfolding insert
  insert_all [] m = m
  insert_all ((k, v) ∷ n) m = insert_all n (insert k v m)

  pub lookup-insert :
      (k j : K) (v : V) (m : List (K × V))
      → lookup j (insert k v m) ≡ (if e.beq k j then some v else lookup j m)
  unfolding lookup insert
  lookup-insert k j v [] = refl
  lookup-insert k j v ((i, w) ∷ m) =
      ground (arith, e.beq_iff k j, e.beq_iff i k, e.beq_iff i j, lookup-insert k j v m)

  pub has_key-insert :
      (k j : K) (v : V) (m : List (K × V)) → has_key j (insert k v m) ≡ (e.beq k j || has_key j m)
  unfolding has_key insert
  has_key-insert k j v [] = refl
  has_key-insert k j v ((i, w) ∷ m) =
      ground (arith, e.beq_iff k j, e.beq_iff i k, e.beq_iff i j, has_key-insert k j v m)

  pub lookup-delete :
      (k j : K) (m : List (K × V))
      → lookup j (delete k m) ≡ (if e.beq k j then none else lookup j m)
  unfolding lookup delete
  lookup-delete k j [] = ground arith
  lookup-delete k j ((i, w) ∷ m) =
      ground (arith, e.beq_iff k j, e.beq_iff i k, e.beq_iff i j, lookup-delete k j m)

pub beq_refl {ℓ} : {K : Type ℓ} ⦃e : Eq K⦄ (k : K) → e.beq k k ≡ true
beq_refl ⦃e⦄ k = (e.beq_iff k k).1 refl

abbrev pub first_some {ℓ} : {V : Type ℓ} → Option V → Option V → Option V
first_some (some v) o = some v
first_some none o = o

-- A Go map holds no key twice.
module _ {ℓ κ} {K : Type ℓ} {V : Type κ} ⦃e : Eq K⦄ where
  abbrev pub HasDistinctKeys : List (K × V) → Type κ
  HasDistinctKeys [] = Unit
  HasDistinctKeys ((k, v) ∷ m) = (lookup k m ≡ none) × HasDistinctKeys m

  pub lookup-insert_all :
      (n m : List (K × V)) (j : K)
      → HasDistinctKeys n
      → lookup j (insert_all n m) ≡ first_some (lookup j n) (lookup j m)
  unfolding insert_all lookup
  lookup-insert_all [] m j d = refl
  lookup-insert_all ((k, v) ∷ n) m j (fresh, d) =
      ground (arith, lookup-insert_all n (insert k v m) j d, lookup-insert k j v m, e.beq_iff k j)

  pub insert-HasDistinctKeys :
      (k : K) (v : V) (m : List (K × V)) → HasDistinctKeys m → HasDistinctKeys (insert k v m)
  unfolding insert lookup
  insert-HasDistinctKeys k v [] d = (refl, tt)
  insert-HasDistinctKeys k v ((j, w) ∷ m) (fresh, d) = elim (Bool-cases (e.beq j k)) [
    | inl same ↦ rw same (rw (sym ((e.beq_iff j k).0 same)) fresh, d)
    | inr other ↦ rw other (
      rw (lookup-insert k j v m) (ground (arith, e.beq_iff j k, e.beq_iff k j)),
      insert-HasDistinctKeys k v m d,
    )
  ]

  pub insert_all-HasDistinctKeys :
      (n m : List (K × V)) → HasDistinctKeys m → HasDistinctKeys (insert_all n m)
  unfolding insert_all
  insert_all-HasDistinctKeys [] m d = d
  insert_all-HasDistinctKeys ((k, v) ∷ n) m d =
      insert_all-HasDistinctKeys n (insert k v m) (insert-HasDistinctKeys k v m d)

  -- A copy has the same entries.
  pub lookup-copy :
      (m : List (K × V)) (k : K) → HasDistinctKeys m → lookup k (insert_all m []) ≡ lookup k m
  unfolding lookup
  lookup-copy m k d = ground (arith, lookup-insert_all m [] k d)

  -- No key of the list is in the map.
  abbrev pub AllNew : List (K × V) → List K → Type 0
  AllNew m = All (λ k. has_key k m ≡ false)

  -- A loop that refuses keys that it has seen: what is new after one more key.
  pub AllNew-insert :
      (k : K) (v : V) (m : List (K × V)) (ks : List K)
      → AllNew (insert k v m) ks ↔ (All (λ j. k ≢ j) ks × AllNew m ks)
  AllNew-insert k v m [] = (λ _. (tt, tt), λ _. tt)
  AllNew-insert k v m (j ∷ ks) =
      let ih = AllNew-insert k v m ks in
      (
        λ (n, ns).
            let split = ih.0 ns in
            let apart = new-insert.0 n in ((apart.0, split.0), (apart.1, split.1)),
        λ ((n, ns), (o, os)). (new-insert.1 (n, o), ih.1 (ns, os)),
      )
    where
      new-insert : (has_key j (insert k v m) ≡ false) ↔ ((k ≢ j) × (has_key j m ≡ false))
      new-insert = (
        λ h. (
          λ same. ground (arith, has_key-insert k j v m, e.beq_iff k j),
          ground (arith, has_key-insert k j v m),
        ),
        λ (n, o). ground (arith, has_key-insert k j v m, e.beq_iff k j),
      )

pub AllNew-nil {ℓ κ} : {K : Type ℓ} (V : Type κ) ⦃e : Eq K⦄ (ks : List K) → AllNew {V = V} [] ks
unfolding has_key
AllNew-nil V [] = tt
AllNew-nil V (k ∷ ks) = (refl, AllNew-nil V ks)
