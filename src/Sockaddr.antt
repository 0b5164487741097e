-- ===== src/Sockaddr.antt =====
-- lib/sockaddr.c, and the `struct sockaddr` of the socket API that the rest of the library reads.
use mptcpd.Common.{ℕ, List, [], Bool, ◌||◌, Option, none, some, ◌==◌, if◌then◌else◌}

-- AF_INET and AF_INET6.
abbrev pub af_inet : ℕ
af_inet = 2

abbrev pub af_inet6 : ℕ
af_inet6 = 10

-- A socket address under its two views, `struct sockaddr_in` (`addr4`) and `struct sockaddr_in6`
-- (`addr6`, sixteen bytes). `family` says which view is meant; both keep the port in one place.
-- Addresses and ports are in network byte order.
pub record Sockaddr : Type 0 where
  pub family : ℕ
  pub port : ℕ
  pub addr4 : ℕ
  pub addr6 : List ℕ

-- AF_INET or AF_INET6.
abbrev pub is_inet : Sockaddr → Bool
is_inet sa = sa.family == af_inet || sa.family == af_inet6

-- `mptcpd_sockaddr_storage_init`: a NULL address is `none`, and so is the result `false`. The
-- argument `addr` is the storage before the call.
unfoldable pub sockaddr_storage_init :
    Option ℕ → Option (List ℕ) → ℕ → Option Sockaddr → Option Sockaddr
sockaddr_storage_init none none port addr = none
sockaddr_storage_init (some a) addr6 port none = none
sockaddr_storage_init (some a) addr6 port (some addr) =
    some (record addr { family = af_inet; port = port; addr4 = a })
sockaddr_storage_init none (some a) port none = none
sockaddr_storage_init none (some a) port (some addr) =
    some (record addr { family = af_inet6; port = port; addr6 = a })

-- `mptcpd_sockaddr_copy`: the copy is a new object with the bytes of the view that the family
-- selects; a `struct sockaddr_in` does not reach to the IPv6 address.
unfoldable pub sockaddr_copy : Option Sockaddr → Option Sockaddr
sockaddr_copy none = none
sockaddr_copy (some sa) =
    if sa.family == af_inet
    then some (record sa { addr6 = [] })
    else if sa.family == af_inet6
    then some sa
    else none
