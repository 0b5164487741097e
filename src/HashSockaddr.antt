-- ===== src/HashSockaddr.antt =====
-- lib/hash_sockaddr.c: comparison of hash map keys by IP address. A result of type `int` counts by
-- its sign: `lt` is negative, `eq` is 0 and `gt` is positive.
pub mod Order
pub mod Copy
mod Tests
use mptcpd.Common.{ℕ, List, [], ◌∷◌, Bool, Ordering, ltb, ◌==◌, if◌then◌else◌}
use mptcpd.Sockaddr.{Sockaddr, af_inet}

-- `lhs < rhs ? -1 : (lhs > rhs ? 1 : 0)`.
unfoldable pub compare_number : ℕ → ℕ → Ordering
compare_number lhs rhs =
    if ltb lhs rhs then Ordering.lt else if ltb rhs lhs then Ordering.gt else Ordering.eq

-- `memcmp` of two byte arrays; the code calls it on arrays of one size only.
unfoldable pub memcmp : List ℕ → List ℕ → Ordering
memcmp [] [] = Ordering.eq
memcmp [] (y ∷ ys) = Ordering.lt
memcmp (x ∷ xs) [] = Ordering.gt
memcmp (x ∷ xs) (y ∷ ys) =
    if ltb x y then Ordering.lt else if ltb y x then Ordering.gt else memcmp xs ys

unfoldable pub compare_sockaddr_in : Sockaddr → Sockaddr → Ordering
unfolding compare_number
compare_sockaddr_in lsa rsa = compare_number lsa.addr4 rsa.addr4

unfoldable pub compare_sockaddr_in6 : Sockaddr → Sockaddr → Ordering
compare_sockaddr_in6 lsa rsa = memcmp lsa.addr6 rsa.addr6

-- `mptcpd_hash_sockaddr_compare`. The seeds of the two keys are not read.
unfoldable pub hash_sockaddr_compare : Sockaddr → Sockaddr → Ordering
unfolding compare_sockaddr_in compare_sockaddr_in6
hash_sockaddr_compare lsa rsa =
    if lsa.family == rsa.family
    then (if lsa.family == af_inet
        then compare_sockaddr_in lsa rsa
        else compare_sockaddr_in6 lsa rsa)
    else if lsa.family == af_inet
    then Ordering.gt
    else Ordering.lt

-- `struct mptcpd_hash_sockaddr_key`: an address and a seed.
abbrev pub Key : Type 0
Key = Sockaddr × ℕ

-- `mptcpd_hash_sockaddr_key_copy`. The bytes of the view that the family selects are copied; a
-- `struct sockaddr_in` does not reach to the IPv6 address.
unfoldable pub hash_sockaddr_key_copy : Key → Key
hash_sockaddr_key_copy (sa, seed) =
    if sa.family == af_inet then (record sa { addr6 = [] }, seed) else (sa, seed)
