-- ===== src/Netlink/Size.antt =====
-- The attributes of a message, and how many bytes they take.
use mptcpd.Common.{
  ℕ, ◌+◌, ◌*◌, ◌/◌, ◌%◌, ◌||◌, List, [], ◌∷◌, ◌++◌, ◌≡◌, arith, ◌==◌, if◌then◌else◌,
}
use mptcpd.Ell.Genl.{Token, enter, attr, leave}
use mptcpd.Events.Attributes.{Attribute}
use mptcpd.Netlink.{nla_align, nla_align_opt, nla_align_addr, get_addr_size, ip_attr}
use mptcpd.Sockaddr.{Sockaddr}

-- The optional attribute of a command, which is left out where `v` is 0.
abbrev pub optional : ℕ → Attribute → List Token
optional v a = if v == 0 then [] else attr a ∷ []

-- A port in host byte order; it is 0 where the family is neither AF_INET nor AF_INET6.
unfoldable pub wire_port : Sockaddr → ℕ
wire_port addr =
    if addr.family == 2 || addr.family == 10
    then addr.port % 256 * 256 + addr.port / 256 % 256
    else 0

-- The attributes of a message that are not nested.
abbrev pub attributes : List Token → List Attribute
attributes [] = []
attributes (attr a ∷ rest) = a ∷ attributes rest
attributes (_ ∷ rest) = attributes rest

-- The bytes of an attribute with its header, padded, and of the header of a nested one.
unfoldable pub wire_size : List Token → ℕ
wire_size [] = 0
wire_size (attr a ∷ rest) = 4 + (a.len + 3) / 4 * 4 + wire_size rest
wire_size (enter t ∷ rest) = 4 + wire_size rest
wire_size (leave ∷ rest) = wire_size rest

pub wire_size-append : (ts us : List Token) → wire_size (ts ++ us) ≡ wire_size ts + wire_size us
unfolding wire_size
wire_size-append [] us = omega arith
wire_size-append (attr a ∷ rest) us = omega (arith, wire_size-append rest us)
wire_size-append (enter t ∷ rest) us = omega (arith, wire_size-append rest us)
wire_size-append (leave ∷ rest) us = wire_size-append rest us

pub nla_align-ip :
    (addr : Sockaddr) (type4 type6 : ℕ)
    → 4 + ((ip_attr type4 type6 addr).len + 3) / 4 * 4 ≡ nla_align_addr addr
unfolding nla_align_addr get_addr_size nla_align
nla_align-ip addr type4 type6 = ground arith

pub wire_size-optional : (v : ℕ) (a : Attribute) → wire_size (optional v a) ≡ nla_align_opt a.len v
unfolding wire_size nla_align_opt nla_align
wire_size-optional v a = ground arith
