-- ===== src/Addr/Usable.antt =====
-- Which addresses `List` of addr/addr.go returns.
use mathlib.Core.Path.{subst}
use finokit.Base.{
  List, [], ◌∷◌, true, false, ◌||◌, Text, text_eq, text_eq_iff, text_key, any, has_key, insert,
  has_key-insert, AllNew, AllNew-insert, Distinct, ◌≡◌, refl, sym, arith, inl, inr, Bool-cases,
  Option-cases,
}
use finokit.Addr.{canonical_ip, normalize_from, normalize_ips}
use finokit.Addr.Primary.{candidates}

-- The loop on the usable addresses alone.
unfoldable fresh_from : List (Text × Unit {0}) → List Text → List Text
unfolding has_key insert
fresh_from seen [] = []
fresh_from seen (c ∷ cs) = elim (has_key c seen) [
  | true ↦ fresh_from seen cs
  | false ↦ c ∷ fresh_from (insert c tt seen) cs
]

normalize_from-fresh_from :
    (seen : List (Text × Unit {0})) (ips : List Text)
    → normalize_from seen ips ≡ fresh_from seen (candidates ips)
unfolding normalize_from candidates fresh_from
normalize_from-fresh_from seen [] = refl
normalize_from-fresh_from seen (ip ∷ ips) = elim (Option-cases (canonical_ip ip)) [
  | inl nil ↦ ground (arith, normalize_from-fresh_from seen ips)
  | inr (c, canon) ↦
      ground (
        arith,
        normalize_from-fresh_from seen ips,
        normalize_from-fresh_from (insert c tt seen) ips,
      )
]

fresh_from-Distinct :
    (seen : List (Text × Unit {0})) (cs : List Text)
    → Distinct (fresh_from seen cs) × AllNew seen (fresh_from seen cs)
unfolding fresh_from
fresh_from-Distinct seen [] = (tt, tt)
fresh_from-Distinct seen (c ∷ cs) = elim (Bool-cases (has_key c seen)) [
  | inl known ↦
      subst (λ l. Distinct l × AllNew seen l) {x = fresh_from seen cs} (ground arith)
        (fresh_from-Distinct seen cs)
  | inr new ↦
      let (distinct, all_new) = fresh_from-Distinct (insert c tt seen) cs in
      let (apart, unseen) =
        (AllNew-insert c tt seen (fresh_from (insert c tt seen) cs)).0 all_new in
      subst (λ l. Distinct l × AllNew seen l) {x = c ∷ fresh_from (insert c tt seen) cs}
        (ground arith) ((apart, distinct), (new, unseen))
]

fresh_from-any :
    (d : Text) (seen : List (Text × Unit {0})) (cs : List Text)
    → (any (text_eq d) (fresh_from seen cs) || has_key d seen)
      ≡ (any (text_eq d) cs || has_key d seen)
unfolding fresh_from
fresh_from-any d seen [] = refl
fresh_from-any d seen (c ∷ cs) = elim (Bool-cases (has_key c seen)) [
  | inl known ↦ ground (arith, fresh_from-any d seen cs, text_eq_iff d c)
  | inr new ↦ ground (
    arith,
    fresh_from-any d (insert c tt seen) cs,
    has_key-insert c d tt seen,
    text_eq_iff d c,
    text_eq_iff c d,
  )
]

-- `List` returns no address twice, and an address is in what it returns just when it is among the
-- usable addresses of the interfaces, in canonical form.
pub normalize_ips_lem :
    (ips : List Text) (d : Text)
    → Distinct (normalize_ips ips)
      × (any (text_eq d) (normalize_ips ips) ≡ any (text_eq d) (candidates ips))
unfolding normalize_ips
normalize_ips_lem ips d =
    let same = normalize_from-fresh_from [] ips in
    (
      subst Distinct {x = fresh_from [] (candidates ips)} (sym same)
          (fresh_from-Distinct [] (candidates ips)).0,
      ground (arith, fresh_from-any d [] (candidates ips)),
    )
