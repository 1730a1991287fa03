-- ===== src/Addr/Primary.antt =====
-- Which address `selectPrimary` of addr/addr.go chooses.
use finokit.Base.{
  ℕ, suc, ◌≤◌, ◌<◌, true, false, List, [], ◌∷◌, ◌++◌, Option, none, some, Text, ltb, ok, err, ◌≡◌,
  refl, ap, ◌∙◌, arith, ◌⊎◌, inl, inr, All, Bool-cases, Option-cases, if◌then◌else◌,
}
use mathlib.Core.Path.{subst}
use finokit.Addr.{
  to_4, is_private_v4, is_loopback, no_address_found, canonical_ip, is_usable_ip, primary_rank,
  primary_from, select_primary,
}

-- The usable addresses of a list, in canonical form.
unfoldable pub candidates : List Text → List Text
unfolding canonical_ip is_usable_ip
candidates [] = []
candidates (ip ∷ ips) =
    let rest = candidates ips in
    elim (canonical_ip ip) [ none ↦ rest | some c ↦ if is_usable_ip c then c ∷ rest else rest ]

module _ (rank : Text → ℕ) where
  -- The loop on the candidates alone, for any rank.
  unfoldable lowest_from : Option Text → ℕ → List Text → Option Text
  lowest_from best k [] = best
  lowest_from best k (c ∷ cs) =
      if ltb (rank c) k then lowest_from (some c) (rank c) cs else lowest_from best k cs

  -- An address is the first of those of the lowest rank in a list.
  abbrev pub IsFirstLowest : Text → List Text → Type 0
  IsFirstLowest best cs =
      (before : List Text) × (after : List Text) × (cs ≡ before ++ best ∷ after)
      × All (λ ip. rank best < rank ip) before
      × All (λ ip. rank best ≤ rank ip) after

  lowest_from-cases :
      (b : Text) (cs : List Text)
      → ((lowest_from (some b) (rank b) cs ≡ some b) × All (λ ip. rank b ≤ rank ip) cs)
        ⊎ ((best : Text) × (lowest_from (some b) (rank b) cs ≡ some best)
            × (rank best < rank b)
            × IsFirstLowest best cs)
  unfolding lowest_from
  lowest_from-cases b [] = inl (refl, tt)
  lowest_from-cases b (c ∷ cs) = elim (Bool-cases (ltb (rank c) (rank b))) [
    | inl lower ↦ elim (lowest_from-cases c cs) [
      | inl (stays, least) ↦ inr (c, ground arith, ground arith, ([], cs, refl, tt, least))
      | inr (best, found, less, (before, after, split, above, rest)) ↦ inr (
        best,
        ground arith,
        ground arith,
        (c ∷ before, after, ap (◌∷◌ c) split, (less, above), rest),
      )
    ]
    | inr higher ↦ elim (lowest_from-cases b cs) [
      | inl (stays, least) ↦ inl (ground arith, (ground arith, least))
      | inr (best, found, less, (before, after, split, above, rest)) ↦ inr (
        best,
        ground arith,
        less,
        (c ∷ before, after, ap (◌∷◌ c) split, (ground arith, above), rest),
      )
    ]
  ]

primary_from-lowest_from :
    (best : Option Text) (k : ℕ) (ips : List Text)
    → primary_from best k ips ≡ lowest_from primary_rank best k (candidates ips)
unfolding primary_from candidates lowest_from
primary_from-lowest_from best k [] = refl
primary_from-lowest_from best k (ip ∷ ips) = elim (Option-cases (canonical_ip ip)) [
  | inl nil ↦ ground (arith, primary_from-lowest_from best k ips)
  | inr (c, canon) ↦ elim (Bool-cases (is_usable_ip c)) [
    | inr useless ↦ ground (arith, primary_from-lowest_from best k ips)
    | inl usable ↦ ground (
      arith,
      primary_from-lowest_from best k ips,
      primary_from-lowest_from (some c) (primary_rank c) ips,
    )
  ]
]

primary_rank_bound : (ip : Text) → primary_rank ip < 99
unfolding primary_rank
primary_rank_bound ip = ground arith

chosen :
    (ips : List Text) (o : Option Text)
    → primary_from none 99 ips ≡ o
    → select_primary ips ≡ (elim o [ none ↦ err no_address_found | some ip ↦ ok ip ])
unfolding select_primary
chosen ips o found = ground arith

lowest-cases :
    (cs : List Text)
    → ((cs ≡ []) × (lowest_from primary_rank none 99 cs ≡ none))
      ⊎ ((best : Text) × (lowest_from primary_rank none 99 cs ≡ some best)
          × IsFirstLowest primary_rank best cs)
unfolding lowest_from
lowest-cases [] = inl (refl, refl)
lowest-cases (c ∷ cs) =
    let low = primary_rank_bound c in
    elim (lowest_from-cases primary_rank c cs) [
      | inl (stays, least) ↦ inr (c, ground arith, ([], cs, refl, tt, least))
      | inr (best, found, less, (before, after, split, above, rest)) ↦
          inr (best, ground arith, (c ∷ before, after, ap (◌∷◌ c) split, (less, above), rest))
    ]

-- The order of addr/README.md, for a canonical address: its place in the list there.
pub data Place : ℕ → Text → Type 0 where
  private_v4 : {ip v4 : Text} → to_4 ip ≡ some v4 → is_private_v4 v4 ≡ true → Place 1 ip
  public_v4 :
      {ip v4 : Text}
      → to_4 ip ≡ some v4
      → is_private_v4 v4 ≡ false
      → is_loopback v4 ≡ false
      → Place 2 ip
  public_v6 : {ip : Text} → to_4 ip ≡ none → is_loopback ip ≡ false → Place 3 ip
  loopback_v4 :
      {ip v4 : Text}
      → to_4 ip ≡ some v4
      → is_private_v4 v4 ≡ false
      → is_loopback v4 ≡ true
      → Place 4 ip
  loopback_v6 : {ip : Text} → to_4 ip ≡ none → is_loopback ip ≡ true → Place 5 ip

primary_rank-Place : (ip : Text) → Place (suc (primary_rank ip)) ip
unfolding primary_rank
primary_rank-Place ip = elim (Option-cases (to_4 ip)) [
  | inl v6 ↦ elim (Bool-cases (is_loopback ip)) [
    | inl loop ↦ subst (λ k. Place (suc k) ip) {x = 4} (ground arith) (Place.loopback_v6 v6 loop)
    | inr other ↦ subst (λ k. Place (suc k) ip) {x = 2} (ground arith) (Place.public_v6 v6 other)
  ]
  | inr (v4, short) ↦ elim (Bool-cases (is_private_v4 v4)) [
    | inl own ↦ subst (λ k. Place (suc k) ip) {x = 0} (ground arith) (Place.private_v4 short own)
    | inr open_one ↦ elim (Bool-cases (is_loopback v4)) [
      | inl loop ↦
          subst (λ k. Place (suc k) ip) {x = 3} (ground arith)
            (Place.loopback_v4 short open_one loop)
      | inr other ↦
          subst (λ k. Place (suc k) ip) {x = 1} (ground arith)
            (Place.public_v4 short open_one other)
    ]
  ]
]

-- An address is in a list behind addresses of later places only, and before ones of no earlier place.
abbrev pub IsBest : Text → List Text → Type 0
IsBest best cs =
    (k : ℕ) × (before : List Text) × (after : List Text) × Place k best
    × (cs ≡ before ++ best ∷ after)
    × All (λ ip. (j : ℕ) × Place j ip × (k < j)) before
    × All (λ ip. (j : ℕ) × Place j ip × (k ≤ j)) after

All-map :
    {P Q : Text → Type 0} (f : (ip : Text) → P ip → Q ip) (ips : List Text) → All P ips → All Q ips
All-map f [] h = tt
All-map f (ip ∷ ips) (p, h) = (f ip p, All-map f ips h)

placed : (best : Text) (cs : List Text) → IsFirstLowest primary_rank best cs → IsBest best cs
placed best cs (before, after, split, above, rest) = (
  suc (primary_rank best),
  before,
  after,
  primary_rank-Place best,
  split,
  All-map (λ ip less. (suc (primary_rank ip), primary_rank-Place ip, omega arith)) before above,
  All-map (λ ip least. (suc (primary_rank ip), primary_rank-Place ip, omega arith)) after rest,
)

-- `selectPrimary` returns an error just when no address of the list is usable; otherwise it returns,
-- in canonical form, the first of the usable addresses that come first in this order: private IPv4
-- addresses, the other IPv4 addresses that are not loopback, IPv6 addresses that are not loopback,
-- IPv4 loopback addresses, and IPv6 loopback addresses.
pub select_primary_lem :
    (ips : List Text)
    → ((candidates ips ≡ []) × (select_primary ips ≡ err no_address_found))
      ⊎ ((best : Text) × (select_primary ips ≡ ok best) × IsBest best (candidates ips))
select_primary_lem ips =
    let same = primary_from-lowest_from none 99 ips in
    elim (lowest-cases (candidates ips)) [
      | inl (nothing, result) ↦ inl (nothing, chosen ips none (same ∙ result))
      | inr (best, found, lowest) ↦
          inr (best, chosen ips (some best) (same ∙ found), placed best (candidates ips) lowest)
    ]
