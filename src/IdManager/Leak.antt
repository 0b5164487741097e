-- ===== src/IdManager/Leak.antt =====
-- What becomes of an ID that `mptcpd_idm_map_id` replaces by another.
use mptcpd.Common.{ℕ, true, some, ◌≡◌, ◌≢◌, arith, sym}
use mptcpd.IdManager.{Platform, Idm, put_id, idm_map_id}
use mptcpd.IdManager.Invariant.{Inv}
use mptcpd.IdManager.Map.{same_self}
use mptcpd.IdManager.Put.{lookup-put_id}
use mptcpd.Sockaddr.{Sockaddr}

module _ (p : Platform) where
  open p use {seed, hm, us}

  -- Marked used, and belonging to no address.
  pub record Leaked (idm : Idm p) (n : ℕ) : Type 0 where
    pub marked : us.contains idm.ids n ≡ true
    pub unmapped : (a : Sockaddr) → hm.lookup idm.map a ≢ some n

  contains-put_id_used :
      (idm : Idm p) (sa : Sockaddr) (id n : ℕ)
      → us.contains idm.ids n ≡ true
      → id ≢ n
      → us.contains (put_id p idm sa id).0.ids n ≡ true
  unfolding put_id
  contains-put_id_used idm sa id n h ne =
      ground (arith, us.contains-put idm.ids id n, us.contains-take (us.put idm.ids id).0 id n, h)

  map_id_put :
      (idm idm' : Idm p) (sa : Sockaddr) (id : ℕ)
      → idm_map_id p (some idm) (some sa) id ≡ (some idm', true)
      → ((put_id p idm sa id).1 ≡ true) × (idm' ≡ (put_id p idm sa id).0)
  unfolding idm_map_id
  map_id_put idm idm' sa id e = ground (arith, e)

  -- An address that is mapped again, to another ID, leaves its old ID marked used with no address.
  pub map_id-Leaked :
      (idm idm' : Idm p) (sa : Sockaddr) (old id : ℕ)
      → Inv p idm
      → hm.lookup idm.map sa ≡ some old
      → old ≢ id
      → idm_map_id p (some idm) (some sa) id ≡ (some idm', true)
      → Leaked idm' old × (hm.lookup idm'.map sa ≡ some id)
  map_id-Leaked idm idm' sa old id v h ne e =
      let put = map_id_put idm idm' sa id e in
      rw put.1 (
        record {
          marked = contains-put_id_used idm sa id old (v.used sa old h) (λ q. ne (sym q));
          unmapped = λ a k.
              ground (arith, k, lookup-put_id p idm sa a id v.distinct put.0, v.unique sa a old h);
        },
        ground (arith, lookup-put_id p idm sa sa id v.distinct put.0, same_self p sa),
      )
