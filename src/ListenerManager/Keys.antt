-- ===== src/ListenerManager/Keys.antt =====
-- The key functions that lib/listener_manager.c hands to its hash map: IP address and port.
use mptcpd.Common.{
  ℕ, ◌/◌, ◌%◌, ◌≡◌, ◌∙◌, ◌↔◌, refl, sym, Ordering, List, [], ◌∷◌, ◌++◌, arith, ◌==◌, if◌then◌else◌,
}
use mptcpd.Ell.HashMap.{Keys}
use mptcpd.HashSockaddr.{compare_number}
use mptcpd.HashSockaddr as Ip
use mptcpd.HashSockaddr.Order.{ip, hash_sockaddr_compare_eq_iff}
use mptcpd.Murmur.{murmur_hash3, word_bytes}
use mptcpd.Sockaddr.{Sockaddr, af_inet}

-- The port, followed by the two bytes of padding.
abbrev port_bytes : ℕ → List ℕ
port_bytes port = (port % 0x100) ∷ (port / 0x100 % 0x100) ∷ 0 ∷ 0 ∷ []

-- `struct key_in`: address, port and padding.
unfoldable pub hash_sockaddr_in : Sockaddr → ℕ → ℕ
hash_sockaddr_in sa seed = murmur_hash3 (word_bytes sa.addr4 ++ port_bytes sa.port) 8 seed

-- `struct key_in6`.
unfoldable pub hash_sockaddr_in6 : Sockaddr → ℕ → ℕ
hash_sockaddr_in6 sa seed = murmur_hash3 (sa.addr6 ++ port_bytes sa.port) 20 seed

-- The assertion on the family is not modelled: it holds for the families that the callers pass.
unfoldable pub hash_sockaddr : ℕ → Sockaddr → ℕ
hash_sockaddr seed sa =
    if sa.family == af_inet then hash_sockaddr_in sa seed else hash_sockaddr_in6 sa seed

unfoldable pub compare_port : ℕ → ℕ → Ordering
unfolding compare_number
compare_port lhs rhs = compare_number lhs rhs

-- The IP addresses decide, and the ports where these are equal.
unfoldable pub hash_sockaddr_compare : Sockaddr → Sockaddr → Ordering
unfolding compare_port
hash_sockaddr_compare a b = elim (Ip.hash_sockaddr_compare a b) [
  | Ordering.eq ↦ compare_port a.port b.port
  | cmp ↦ cmp
]

-- Two keys compare equal exactly when they have one IP address and one port.
pub hash_sockaddr_compare_port_iff :
    (a b : Sockaddr)
    → (hash_sockaddr_compare a b ≡ Ordering.eq) ↔ ((ip a ≡ ip b) × (a.port ≡ b.port))
unfolding hash_sockaddr_compare
hash_sockaddr_compare_port_iff a b = (
  λ h. ground (arith, hash_sockaddr_compare_eq_iff a b, h),
  λ h. ground (arith, hash_sockaddr_compare_eq_iff a b, h),
)

-- Keys that compare equal have one hash, whatever the seed: the contract of the hash map.
pub hash-compare :
    (seed : ℕ) (a b : Sockaddr)
    → hash_sockaddr_compare a b ≡ Ordering.eq
    → hash_sockaddr seed a ≡ hash_sockaddr seed b
unfolding hash_sockaddr hash_sockaddr_in hash_sockaddr_in6 ip
hash-compare seed a b h = ground (arith, (hash_sockaddr_compare_port_iff a b).0 h)

pub compare_self : (a : Sockaddr) → hash_sockaddr_compare a a ≡ Ordering.eq
compare_self a = (hash_sockaddr_compare_port_iff a a).1 (refl, refl)

pub compare_sym :
    (a b : Sockaddr)
    → hash_sockaddr_compare a b ≡ Ordering.eq
    → hash_sockaddr_compare b a ≡ Ordering.eq
compare_sym a b h =
    let e = (hash_sockaddr_compare_port_iff a b).0 h in
    (hash_sockaddr_compare_port_iff b a).1 (sym e.0, sym e.1)

pub compare_trans :
    (a b c : Sockaddr)
    → hash_sockaddr_compare a b ≡ Ordering.eq
    → hash_sockaddr_compare b c ≡ Ordering.eq
    → hash_sockaddr_compare a c ≡ Ordering.eq
compare_trans a b c h k =
    let e = (hash_sockaddr_compare_port_iff a b).0 h in
    let f = (hash_sockaddr_compare_port_iff b c).0 k in
    (hash_sockaddr_compare_port_iff a c).1 (e.0 ∙ f.0, e.1 ∙ f.1)

-- The functions set by `mptcpd_lm_create`.
abbrev pub listener_keys : ℕ → Keys Sockaddr
listener_keys seed = record {
  hash = hash_sockaddr seed;
  compare = hash_sockaddr_compare;
  compare_self = compare_self;
  compare_sym = compare_sym;
  compare_trans = compare_trans;
  hash_agrees = hash-compare seed;
}
