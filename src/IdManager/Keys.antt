-- ===== src/IdManager/Keys.antt =====
-- The key functions that lib/id_manager.c hands to its hash map.
use mptcpd.Common.{ℕ, Ordering, ◌≡◌, ◌∙◌, refl, sym, arith, ◌==◌, if◌then◌else◌}
use mptcpd.Ell.HashMap.{Keys}
use mptcpd.HashSockaddr.{hash_sockaddr_compare}
use mptcpd.HashSockaddr.Order.{ip, hash_sockaddr_compare_eq_iff}
use mptcpd.Murmur.{murmur_hash3, word_bytes}
use mptcpd.Sockaddr.{Sockaddr, af_inet}

-- The hash of the four bytes of an IPv4 address.
unfoldable pub hash_sockaddr_in : Sockaddr → ℕ → ℕ
hash_sockaddr_in sa seed = murmur_hash3 (word_bytes sa.addr4) 4 seed

-- The hash of the sixteen bytes of an IPv6 address.
unfoldable pub hash_sockaddr_in6 : Sockaddr → ℕ → ℕ
hash_sockaddr_in6 sa seed = murmur_hash3 sa.addr6 16 seed

-- Ports are not hashed. The assertion on the family is not modelled: it holds for the families that
-- the callers pass.
unfoldable pub hash_sockaddr : ℕ → Sockaddr → ℕ
hash_sockaddr seed sa =
    if sa.family == af_inet then hash_sockaddr_in sa seed else hash_sockaddr_in6 sa seed

-- Keys that compare equal have one hash, whatever the seed: the contract of the hash map.
pub hash-compare :
    (seed : ℕ) (a b : Sockaddr)
    → hash_sockaddr_compare a b ≡ Ordering.eq
    → hash_sockaddr seed a ≡ hash_sockaddr seed b
unfolding hash_sockaddr hash_sockaddr_in hash_sockaddr_in6 ip
hash-compare seed a b h = ground (arith, (hash_sockaddr_compare_eq_iff a b).0 h)

pub compare_self : (a : Sockaddr) → hash_sockaddr_compare a a ≡ Ordering.eq
compare_self a = (hash_sockaddr_compare_eq_iff a a).1 refl

pub compare_sym :
    (a b : Sockaddr)
    → hash_sockaddr_compare a b ≡ Ordering.eq
    → hash_sockaddr_compare b a ≡ Ordering.eq
compare_sym a b h =
    (hash_sockaddr_compare_eq_iff b a).1 (sym ((hash_sockaddr_compare_eq_iff a b).0 h))

pub compare_trans :
    (a b c : Sockaddr)
    → hash_sockaddr_compare a b ≡ Ordering.eq
    → hash_sockaddr_compare b c ≡ Ordering.eq
    → hash_sockaddr_compare a c ≡ Ordering.eq
compare_trans a b c h k =
    (hash_sockaddr_compare_eq_iff a c).1
      ((hash_sockaddr_compare_eq_iff a b).0 h ∙ (hash_sockaddr_compare_eq_iff b c).0 k)

-- The functions set by `mptcpd_idm_create`.
abbrev pub ip_keys : ℕ → Keys Sockaddr
ip_keys seed = record {
  hash = hash_sockaddr seed;
  compare = hash_sockaddr_compare;
  compare_self = compare_self;
  compare_sym = compare_sym;
  compare_trans = compare_trans;
  hash_agrees = hash-compare seed;
}
