-- ===== src/HashSockaddr/Order.antt =====
-- The comparison of lib/hash_sockaddr.c as an order on addresses.
use mptcpd.Common.{ℕ, List, [], ◌∷◌, Ordering, ◌≡◌, ◌↔◌, refl, arith, true, ◌==◌, if◌then◌else◌}
use mptcpd.Sockaddr.{Sockaddr, af_inet, is_inet}
use mptcpd.HashSockaddr.{memcmp, hash_sockaddr_compare}

-- The comparison with the arguments exchanged.
abbrev pub flip : Ordering → Ordering
flip Ordering.lt = Ordering.gt
flip Ordering.eq = Ordering.eq
flip Ordering.gt = Ordering.lt

-- The IP address that a key stands for, port and unused view forgotten.
pub data Ip : Type 0 where
  v4 : ℕ → Ip
  v6 : ℕ → List ℕ → Ip

unfoldable pub ip : Sockaddr → Ip
ip sa = if sa.family == af_inet then v4 sa.addr4 else v6 sa.family sa.addr6

memcmp-flip : (xs ys : List ℕ) → memcmp ys xs ≡ flip (memcmp xs ys)
unfolding memcmp
memcmp-flip [] [] = refl
memcmp-flip [] (y ∷ ys) = refl
memcmp-flip (x ∷ xs) [] = refl
memcmp-flip (x ∷ xs) (y ∷ ys) = ground (arith, memcmp-flip xs ys)

pub memcmp_self : (xs : List ℕ) → memcmp xs xs ≡ Ordering.eq
unfolding memcmp
memcmp_self [] = refl
memcmp_self (x ∷ xs) = ground (arith, memcmp_self xs)

pub memcmp_eq : (xs ys : List ℕ) → memcmp xs ys ≡ Ordering.eq → xs ≡ ys
unfolding memcmp
memcmp_eq [] [] h = refl
memcmp_eq [] (y ∷ ys) h = cc
memcmp_eq (x ∷ xs) [] h = cc
memcmp_eq (x ∷ xs) (y ∷ ys) h = ground (arith, memcmp_eq xs ys)

memcmp_trans :
    (xs ys zs : List ℕ)
    → memcmp xs ys ≡ Ordering.lt
    → memcmp ys zs ≡ Ordering.lt
    → memcmp xs zs ≡ Ordering.lt
unfolding memcmp
memcmp_trans [] [] zs h k = cc
memcmp_trans [] (y ∷ ys) [] h k = cc
memcmp_trans [] (y ∷ ys) (z ∷ zs) h k = refl
memcmp_trans (x ∷ xs) [] zs h k = cc
memcmp_trans (x ∷ xs) (y ∷ ys) [] h k = cc
memcmp_trans (x ∷ xs) (y ∷ ys) (z ∷ zs) h k = ground (arith, memcmp_trans xs ys zs)

-- Two keys compare equal exactly when they stand for one IP address: the port and the fields of
-- the other family do not count.
pub hash_sockaddr_compare_eq_iff :
    (lsa rsa : Sockaddr) → (hash_sockaddr_compare lsa rsa ≡ Ordering.eq) ↔ (ip lsa ≡ ip rsa)
unfolding hash_sockaddr_compare ip
hash_sockaddr_compare_eq_iff lsa rsa =
    (λ h. ground (arith, memcmp_eq lsa.addr6 rsa.addr6), λ e. ground (arith, memcmp_self lsa.addr6))

-- On IPv4 and IPv6 addresses the comparison is antisymmetric: exchanging the keys exchanges the
-- sign.
pub hash_sockaddr_compare-flip :
    (lsa rsa : Sockaddr)
    → is_inet lsa ≡ true
    → is_inet rsa ≡ true
    → hash_sockaddr_compare rsa lsa ≡ flip (hash_sockaddr_compare lsa rsa)
unfolding hash_sockaddr_compare
hash_sockaddr_compare-flip lsa rsa h k = ground (arith, memcmp-flip lsa.addr6 rsa.addr6)

-- On IPv4 and IPv6 addresses the relation `lt` is transitive: with antisymmetry, a total order on IP
-- addresses.
pub hash_sockaddr_compare_trans :
    (a b c : Sockaddr)
    → is_inet a ≡ true
    → is_inet b ≡ true
    → is_inet c ≡ true
    → hash_sockaddr_compare a b ≡ Ordering.lt
    → hash_sockaddr_compare b c ≡ Ordering.lt
    → hash_sockaddr_compare a c ≡ Ordering.lt
unfolding hash_sockaddr_compare
hash_sockaddr_compare_trans a b c ia ib ic h k =
    ground (arith, memcmp_trans a.addr6 b.addr6 c.addr6)
