-- ===== src/Addr/Lookup.antt =====
-- What addr/addr.go finds by a name: in the environment, at the resolver, or among the interfaces.
use finokit.Base.{
  List, [], ◌∷◌, Option, none, some, Bool, true, false, ◌&&◌, Text, text, is_empty, trim_space,
  Result, ok, err, if◌then◌else◌, has_prefix, has_suffix, trim_prefix, trim_suffix,
}
use finokit.Addr.{
  Error, system, no_address_found, env_address_not_set, invalid_env_key, invalid_address,
  canonical_ip, to_4, list, contains_ip,
}

-- What the code uses of package net and of strings: ParseIP, the host of SplitHostPort, EqualFold.
pub record Net : Type 0 where
  pub parse_ip : Text → Option Text
  pub split_host : Text → Option Text
  pub equal_fold : Text → Text → Bool

module _ (n : Net) where
  unfoldable pub parse_ip : Text → Option Text
  unfolding canonical_ip trim_space
  parse_ip value = elim (n.parse_ip (trim_space value)) [ none ↦ none | some ip ↦ canonical_ip ip ]

  -- The loop of `HostIPv4`.
  unfoldable pub first_v4 : List Text → Result Error Text
  unfolding parse_ip to_4
  first_v4 [] = err no_address_found
  first_v4 (value ∷ values) =
      let rest = first_v4 values in
      elim (parse_ip value) [
        | none ↦ rest
        | some ip ↦ elim (to_4 ip) [ none ↦ rest | some v4 ↦ ok ip ]
      ]

  -- `HostIPv4`, with what the host's name and its lookup returned.
  unfoldable pub host_ipv4 : Result Text (List Text) → Result Error Text
  unfolding first_v4
  host_ipv4 (ok values) = first_v4 values
  host_ipv4 (err e) = err (system e)

  unfoldable pub from_env : (Text → Text) → Text → Result Error Text
  unfolding parse_ip trim_space
  from_env getenv key =
      if is_empty (trim_space key)
      then err invalid_env_key
      else if is_empty (trim_space (getenv key))
      then err env_address_not_set
      else elim (parse_ip (trim_space (getenv key))) [
        | none ↦ err (invalid_address (trim_space (getenv key)))
        | some ip ↦ ok ip
      ]

  unfoldable pub normalize_host : Text → Text
  unfolding trim_space
  normalize_host value =
      let v = trim_space value in
      if is_empty v then [] else elim (n.split_host v) [
        | some host ↦ host
        | none ↦
            if has_prefix v (text "[") && has_suffix v (text "]")
            then trim_suffix (trim_prefix v (text "[")) (text "]")
            else v
      ]

  unfoldable pub is_local : Result Text (List Text) → Text → Bool
  unfolding normalize_host parse_ip list contains_ip
  is_local addrs value =
      let host = normalize_host value in
      if n.equal_fold host (text "localhost") then true else elim (parse_ip host) [
        | none ↦ false
        | some ip ↦ elim (list addrs) [ err e ↦ false | ok ips ↦ contains_ip ips ip ]
      ]
