-- ===== src/Redis/Addresses.antt =====
-- The address loop of redis/config.go.
use mathlib.Core.Path.{subst}
use finokit.Base.{
  List, [], ◌∷◌, false, ◌||◌, Text, text_key, is_empty, trim_space, trim_space_idem, has_key,
  insert, ◌≡◌, refl, arith, inl, inr, All, Distinct, AllNew, AllNew-insert, AllNew-nil, Bool-cases,
}
use finokit.Redis.{addresses_from, normalize_addresses}

addresses_from-Distinct :
    (seen : List (Text × Unit {0})) (addrs : List Text)
    → Distinct (addresses_from seen addrs) × AllNew seen (addresses_from seen addrs)
unfolding addresses_from
addresses_from-Distinct seen [] = (tt, tt)
addresses_from-Distinct seen (addr ∷ addrs) =
    let a = trim_space addr in
    elim (Bool-cases (is_empty a || has_key a seen)) [
      | inl known ↦
          subst (λ l. Distinct l × AllNew seen l) {x = addresses_from seen addrs} (ground arith)
            (addresses_from-Distinct seen addrs)
      | inr new ↦
          let (distinct, all_new) = addresses_from-Distinct (insert a tt seen) addrs in
          let (apart, unseen) =
            (AllNew-insert a tt seen (addresses_from (insert a tt seen) addrs)).0 all_new in
          subst (λ l. Distinct l × AllNew seen l) {x = a ∷ addresses_from (insert a tt seen) addrs}
            (ground arith) ((apart, distinct), (ground arith, unseen))
    ]

-- Addresses that are trimmed, not blank, new and distinct pass the loop as they are.
addresses_from-clean :
    (seen : List (Text × Unit {0})) (addrs : List Text)
    → All (λ a. (trim_space a ≡ a) × (is_empty a ≡ false)) addrs
    → Distinct addrs
    → AllNew seen addrs
    → addresses_from seen addrs ≡ addrs
unfolding addresses_from
addresses_from-clean seen [] clean distinct new = refl
addresses_from-clean seen (a ∷ addrs) ((trimmed, full), clean) (apart, distinct) (fresh, new) =
    let ih =
      addresses_from-clean (insert a tt seen) addrs clean distinct
        ((AllNew-insert a tt seen addrs).1 (apart, new)) in
    ground (arith, ih, trimmed)

addresses_from-trimmed :
    (seen : List (Text × Unit {0})) (addrs : List Text)
    → All (λ a. (trim_space a ≡ a) × (is_empty a ≡ false)) (addresses_from seen addrs)
unfolding addresses_from
addresses_from-trimmed seen [] = tt
addresses_from-trimmed seen (addr ∷ addrs) =
    let a = trim_space addr in
    elim (Bool-cases (is_empty a || has_key a seen)) [
      | inl known ↦
          subst (All (λ a. (trim_space a ≡ a) × (is_empty a ≡ false)))
            {x = addresses_from seen addrs} (ground arith) (addresses_from-trimmed seen addrs)
      | inr new ↦
          subst (All (λ a. (trim_space a ≡ a) × (is_empty a ≡ false)))
            {x = a ∷ addresses_from (insert a tt seen) addrs} (ground arith)
            ((trim_space_idem addr, ground arith), addresses_from-trimmed (insert a tt seen) addrs)
    ]

-- `normalizeAddresses` returns trimmed addresses, none blank, none twice, and changes nothing when it
-- runs again on what it returned.
pub normalize_addresses_lem :
    (addrs : List Text)
    → Distinct (normalize_addresses addrs)
      × All (λ a. (trim_space a ≡ a) × (is_empty a ≡ false)) (normalize_addresses addrs)
      × (normalize_addresses (normalize_addresses addrs) ≡ normalize_addresses addrs)
unfolding normalize_addresses
normalize_addresses_lem addrs =
    let distinct = (addresses_from-Distinct [] addrs).0 in
    let clean = addresses_from-trimmed [] addrs in
    (
      distinct,
      clean,
      addresses_from-clean [] (addresses_from [] addrs) clean distinct
          (AllNew-nil (Unit {0}) (addresses_from [] addrs)),
    )
