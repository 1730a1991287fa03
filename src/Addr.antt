-- ===== src/Addr.antt =====
-- addr/addr.go: the addresses of the machine and the choice among them. A net.IP is its bytes, nil
-- being none of them; what the system and the resolver return is an argument.
pub mod Lookup
pub mod System
pub mod Primary
pub mod Usable
mod Tests
use finokit.Base.{
  ℕ, List, [], ◌∷◌, ◌++◌, Option, none, some, Bool, true, false, not, ◌&&◌, ◌||◌, ◌==◌, ltb, leb,
  Text, text, text_eq, text_key, is_empty, trim_space, has_key, insert, length, take, drop, Result,
  ok, err, if◌then◌else◌, has_prefix, has_suffix, trim_prefix, trim_suffix,
}

pub data Error : Type 0 where
  no_address_found env_address_not_set invalid_env_key : Error
  invalid_address : Text → Error
  system : Text → Error

-- Ten zero bytes and two bytes 255: the prefix of an IPv4 address written in sixteen bytes.
abbrev pub v4_prefix : Text
v4_prefix = 0 ∷ 0 ∷ 0 ∷ 0 ∷ 0 ∷ 0 ∷ 0 ∷ 0 ∷ 0 ∷ 0 ∷ 255 ∷ 255 ∷ []

abbrev pub v6_loopback : Text
v6_loopback = 0 ∷ 0 ∷ 0 ∷ 0 ∷ 0 ∷ 0 ∷ 0 ∷ 0 ∷ 0 ∷ 0 ∷ 0 ∷ 0 ∷ 0 ∷ 0 ∷ 0 ∷ 1 ∷ []

-- `ip.To4()`
unfoldable pub to_4 : Text → Option Text
unfolding text_eq
to_4 ip =
    if length ip == 4
    then some ip
    else if length ip == 16 && text_eq (take 12 ip) v4_prefix
    then some (drop 12 ip)
    else none

-- `ip.IsLoopback()`
unfoldable pub is_loopback : Text → Bool
unfolding to_4
is_loopback ip = elim (to_4 ip) [
  | some v4 ↦ text_eq (take 1 v4) (127 ∷ [])
  | none ↦ text_eq ip v6_loopback
]

-- `ip.IsPrivate()` of an IPv4 address: 10/8, 172.16/12 and 192.168/16.
unfoldable pub is_private_v4 : Text → Bool
is_private_v4 [] = false
is_private_v4 (a ∷ []) = a == 10
is_private_v4 (a ∷ b ∷ _) = a == 10 || (a == 172 && leb 16 b && leb b 31) || (a == 192 && b == 168)

-- Every byte is zero: `ip.IsUnspecified()` of an address of either length.
unfoldable pub is_unspecified : Text → Bool
is_unspecified [] = true
is_unspecified (b ∷ ip) = let rest = is_unspecified ip in if b == 0 then rest else false

-- `ip.IsMulticast()`: 224/4, and the first byte 255 of an IPv6 address.
unfoldable pub is_multicast : Text → Bool
is_multicast [] = false
is_multicast (b ∷ ip) = if length ip == 3 then leb 224 b && leb b 239 else b == 255

-- nil for an address of neither length.
unfoldable pub canonical_ip : Text → Option Text
unfolding to_4
canonical_ip ip = elim (to_4 ip) [
  | some v4 ↦ some v4
  | none ↦ if length ip == 16 then some ip else none
]

-- Of a canonical address.
unfoldable pub is_usable_ip : Text → Bool
unfolding is_unspecified is_multicast
is_usable_ip ip = not (is_unspecified ip) && not (is_multicast ip)

unfoldable pub primary_rank : Text → ℕ
unfolding to_4 is_private_v4 is_loopback
primary_rank ip = elim (to_4 ip) [
  | some v4 ↦ if is_private_v4 v4 then 0 else if is_loopback v4 then 3 else 1
  | none ↦ if is_loopback ip then 4 else 2
]

-- The loop of `selectPrimary`, with `best` and `bestRank`.
unfoldable pub primary_from : Option Text → ℕ → List Text → Option Text
unfolding canonical_ip is_usable_ip primary_rank
primary_from best best_rank [] = best
primary_from best best_rank (ip ∷ ips) = elim (canonical_ip ip) [
  | none ↦ primary_from best best_rank ips
  | some c ↦ elim (is_usable_ip c && ltb (primary_rank c) best_rank) [
    | true ↦ primary_from (some c) (primary_rank c) ips
    | false ↦ primary_from best best_rank ips
  ]
]

unfoldable pub select_primary : List Text → Result Error Text
unfolding primary_from
select_primary ips = elim (primary_from none 99 ips) [
  | none ↦ err no_address_found
  | some ip ↦ ok ip
]

-- The loop of `selectLoopback`: the first IPv4 address returns, the first IPv6 address is kept.
unfoldable pub loopback_from : Option Text → List Text → Option Text
unfolding canonical_ip is_usable_ip is_loopback to_4
loopback_from kept [] = kept
loopback_from kept (ip ∷ ips) = elim (canonical_ip ip) [
  | none ↦ loopback_from kept ips
  | some c ↦ elim (is_usable_ip c && is_loopback c) [
    | false ↦ loopback_from kept ips
    | true ↦ elim (to_4 c) [
      | some v4 ↦ some c
      | none ↦ loopback_from (elim kept [ none ↦ some c | some k ↦ some k ]) ips
    ]
  ]
]

unfoldable pub select_loopback : List Text → Result Error Text
unfolding loopback_from
select_loopback ips = elim (loopback_from none ips) [
  | none ↦ err no_address_found
  | some ip ↦ ok ip
]

-- The loop of `normalizeIPs`. The key of a canonical address is its text, which no other address has;
-- the bytes serve for it here.
unfoldable pub normalize_from : List (Text × Unit {0}) → List Text → List Text
unfolding canonical_ip is_usable_ip has_key insert
normalize_from seen [] = []
normalize_from seen (ip ∷ ips) = elim (canonical_ip ip) [
  | none ↦ normalize_from seen ips
  | some c ↦ elim (is_usable_ip c && not (has_key c seen)) [
    | true ↦ c ∷ normalize_from (insert c tt seen) ips
    | false ↦ normalize_from seen ips
  ]
]

unfoldable pub normalize_ips : List Text → List Text
unfolding normalize_from
normalize_ips ips = normalize_from [] ips

-- `List`, with what `net.InterfaceAddrs` returned.
unfoldable pub list : Result Text (List Text) → Result Error (List Text)
unfolding normalize_ips
list (ok addrs) = ok (normalize_ips addrs)
list (err e) = err (system e)

unfoldable pub primary : Result Text (List Text) → Result Error Text
unfolding list select_primary
primary addrs = elim (list addrs) [ ok ips ↦ select_primary ips | err e ↦ err e ]

unfoldable pub loopback : Result Text (List Text) → Result Error Text
unfolding list select_loopback
loopback addrs = elim (list addrs) [ ok ips ↦ select_loopback ips | err e ↦ err e ]

-- `Equal` of two canonical addresses is that of their bytes.
unfoldable pub contains_ip : List Text → Text → Bool
unfolding canonical_ip text_eq
contains_ip [] target = false
contains_ip (ip ∷ ips) target =
    let rest = contains_ip ips target in
    elim (canonical_ip target) [
      | none ↦ false
      | some t ↦ elim (canonical_ip ip) [
        | none ↦ rest
        | some c ↦ if text_eq c t then true else rest
      ]
    ]
