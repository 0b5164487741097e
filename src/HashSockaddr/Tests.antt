-- ===== src/HashSockaddr/Tests.antt =====
-- Runs of the comparison of keys, and the theorems at addresses that meet their hypotheses.
use mptcpd.Common.{Ordering, ◌≡◌, refl, [], ◌∷◌}
use mptcpd.HashSockaddr.{memcmp, compare_number, hash_sockaddr_compare, hash_sockaddr_key_copy}
use mptcpd.Sockaddr.{Sockaddr}

runs : Unit {0}
unfolding memcmp compare_number hash_sockaddr_compare hash_sockaddr_key_copy
runs = tt

-- 192.0.2.1 with a port, the same address with another, and two IPv6 addresses.
abbrev web : Sockaddr
web = record { family = 2; port = 80; addr4 = 0x010200c0; addr6 = [] }

abbrev mail : Sockaddr
mail = record web { port = 25 }

abbrev low : Sockaddr
low = record { family = 10; port = 80; addr4 = 0; addr6 = 0x20 ∷ 1 ∷ [] }

abbrev high : Sockaddr
high = record low { addr6 = 0x20 ∷ 2 ∷ [] }

port_ignored : hash_sockaddr_compare web mail ≡ Ordering.eq
unfolding runs
port_ignored = refl
