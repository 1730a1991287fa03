-- ===== src/Addr/System.antt =====
-- addr/addr.go: the addresses as package net gives them, and the port that the system gives.
use finokit.Base.{ℕ, List, Option, none, Text, Result, ok, err, ◌≡◌, refl, inl, inr, Result-cases}
use finokit.Addr.{
  Error, system, invalid_address, canonical_ip, list, primary, loopback, select_primary,
  select_loopback,
}

-- An address of an interface: of a network, of a host, or of another type.
pub data NetAddr : Type 0 where
  ip_net ip_addr : Text → NetAddr
  other : NetAddr

unfoldable pub addr_ip : NetAddr → Option Text
unfolding canonical_ip
addr_ip (ip_net ip) = canonical_ip ip
addr_ip (ip_addr ip) = canonical_ip ip
addr_ip other = none

unfoldable pub list_and_select :
    (List Text → Result Error Text) → Result Text (List Text) → Result Error Text
unfolding list
list_and_select select addrs = elim (list addrs) [ err e ↦ err e | ok ips ↦ select ips ]

-- `Primary` and `Loopback` are the two uses of `listAndSelect`.
list_and_select_lem :
    (addrs : Result Text (List Text))
    → (primary addrs ≡ list_and_select select_primary addrs)
      × (loopback addrs ≡ list_and_select select_loopback addrs)
unfolding primary loopback list_and_select
list_and_select_lem addrs = elim (Result-cases (list addrs)) [
  | inl (ips, e) ↦ (rw (primary, list_and_select, e) refl, rw (loopback, list_and_select, e) refl)
  | inr (x, e) ↦ (rw (primary, list_and_select, e) refl, rw (loopback, list_and_select, e) refl)
]

-- What listening gives: the port of a TCP address, or an address of another type with its name.
pub data Listening : Type 0 where
  tcp : ℕ → Listening
  of_type : Text → Listening

unfoldable pub free_tcp_port : Result Text Listening → Result Error ℕ
free_tcp_port (err e) = err (system e)
free_tcp_port (ok (tcp port)) = ok port
free_tcp_port (ok (of_type t)) = err (invalid_address t)
