-- ===== src/Addr/Tests.antt =====
-- Runs of the choice of an address.
use finokit.Base.{List, [], ◌∷◌, Text, ok, err, ◌≡◌, ◌⊎◌, refl}
use finokit.Addr.{select_primary, no_address_found}
use finokit.Addr.Primary.{candidates, IsBest, select_primary_lem}

abbrev interfaces : List Text
interfaces =
    (127 ∷ 0 ∷ 0 ∷ 1 ∷ [])
    ∷ (0 ∷ 0 ∷ 0 ∷ 0 ∷ [])
    ∷ (8 ∷ 8 ∷ 8 ∷ 8 ∷ [])
    ∷ (10 ∷ 0 ∷ 0 ∷ 7 ∷ [])
    ∷ []

-- The private address is preferred to the public one and to the loopback.
prefers_private : select_primary interfaces ≡ ok (10 ∷ 0 ∷ 0 ∷ 7 ∷ [])
unfolding select_primary
prefers_private = refl

select_primary_lem_example :
    ((candidates interfaces ≡ []) × (select_primary interfaces ≡ err no_address_found))
    ⊎ ((best : Text) × (select_primary interfaces ≡ ok best) × IsBest best (candidates interfaces))
select_primary_lem_example = select_primary_lem interfaces
