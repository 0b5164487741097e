-- ===== src/HashSockaddr/Copy.antt =====
-- Copies of addresses as keys: what `mptcpd_hash_sockaddr_key_copy` relies on.
use mptcpd.Common.{true, some, Ordering, ◌≡◌, ◌↔◌, arith}
use mptcpd.Sockaddr.{Sockaddr, is_inet, sockaddr_copy}
use mptcpd.HashSockaddr.{Key, hash_sockaddr_compare, hash_sockaddr_key_copy}
use mptcpd.HashSockaddr.Order.{hash_sockaddr_compare_eq_iff, ip}

-- The key that a hash map keeps, a copy, compares equal to the one that it was given, with the same
-- port and the same seed.
pub hash_sockaddr_key_copy-compare :
    (key : Key)
    → (hash_sockaddr_compare key.0 (hash_sockaddr_key_copy key).0 ≡ Ordering.eq)
      × (key.0.port ≡ (hash_sockaddr_key_copy key).0.port)
      × ((hash_sockaddr_key_copy key).1 ≡ key.1)
unfolding hash_sockaddr_key_copy ip
hash_sockaddr_key_copy-compare (sa, seed) =
    let copy = (hash_sockaddr_key_copy (sa, seed)).0 in
    ((hash_sockaddr_compare_eq_iff sa copy).1 (ground arith), ground arith, ground arith)

copied :
    (sa : Sockaddr)
    → is_inet sa ≡ true
    → sockaddr_copy (some sa) ≡ some (hash_sockaddr_key_copy (sa, 0)).0
unfolding sockaddr_copy hash_sockaddr_key_copy
copied sa h = ground (arith, h)

-- An address is copied exactly if it is an IPv4 or IPv6 address, to one that compares equal, with
-- the same port.
pub sockaddr_copy_iff :
    (sa : Sockaddr)
    → ((c : Sockaddr) × (sockaddr_copy (some sa) ≡ some c)
        × (hash_sockaddr_compare sa c ≡ Ordering.eq)
        × (sa.port ≡ c.port))
      ↔ (is_inet sa ≡ true)
unfolding sockaddr_copy
sockaddr_copy_iff sa = (
  λ (c, e, same, port). ground (arith, e),
  λ h.
      let k = hash_sockaddr_key_copy-compare (sa, 0) in
      ((hash_sockaddr_key_copy (sa, 0)).0, copied sa h, k.0, k.1),
)
