-- ===== src/IdManager/Put.antt =====
-- What `put_id`, the part of `mptcpd_idm_map_id` behind its guards, does to the map and to the set.
use mptcpd.Common.{ℕ, true, false, some, ◌≡◌, ◌⊎◌, arith, if◌then◌else◌, ◌==◌}
use mptcpd.Ell.HashMap.{same}
use mptcpd.IdManager.{Platform, Idm, hashmap_replace, put_id}
use mptcpd.IdManager.Keys.{ip_keys}
use mptcpd.IdManager.Map.{hashmap_replace_lem, hashmap_replace-Distinct, same_self}
use mptcpd.Sockaddr.{Sockaddr}

module _ (p : Platform) where
  open p use {seed, hm, us}

  -- A key found after a replacement was stored by it, or was there before.
  replace_found :
      (m : hm.Map) (k j : Sockaddr) (v i : ℕ)
      → hm.Distinct m
      → hm.lookup (hashmap_replace p m k v).0 j ≡ some i
      → (((hashmap_replace p m k v).2 ≡ true) × (same (ip_keys seed) k j ≡ true) × (i ≡ v))
        ⊎ ((hm.lookup m j ≡ some i)
            × ((hashmap_replace p m k v).2 ≡ true → same (ip_keys seed) k j ≡ false))
  unfolding hashmap_replace
  replace_found m k j v i d h = ground (
    arith,
    hm.lookup-replace m k j v,
    hm.lookup-insert (hm.remove m k).0 k j v,
    hm.lookup-remove m k j d,
    hm.lookup-remove m k k d,
    same_self p k,
  )

  -- The same for a call of `put_id`.
  pub put_id_found :
      (idm : Idm p) (sa j : Sockaddr) (id i : ℕ)
      → hm.Distinct idm.map
      → hm.lookup (put_id p idm sa id).0.map j ≡ some i
      → (((put_id p idm sa id).1 ≡ true) × (same (ip_keys seed) sa j ≡ true) × (i ≡ id))
        ⊎ ((hm.lookup idm.map j ≡ some i)
            × ((put_id p idm sa id).1 ≡ true → same (ip_keys seed) sa j ≡ false))
  unfolding put_id
  put_id_found idm sa j id i d h = ground (arith, replace_found idm.map sa j id i d)

  -- A successful call maps the address to the ID, and leaves every other address as it was.
  pub lookup-put_id :
      (idm : Idm p) (sa j : Sockaddr) (id : ℕ)
      → hm.Distinct idm.map
      → (put_id p idm sa id).1 ≡ true
      → hm.lookup (put_id p idm sa id).0.map j
        ≡ (if same (ip_keys seed) sa j then some id else hm.lookup idm.map j)
  unfolding put_id
  lookup-put_id idm sa j id d h = ground (arith, hashmap_replace_lem p idm.map sa j id d)

  pub put_id-Distinct :
      (idm : Idm p) (sa : Sockaddr) (id : ℕ)
      → hm.Distinct idm.map
      → hm.Distinct (put_id p idm sa id).0.map
  unfolding put_id
  put_id-Distinct idm sa id d = ground (arith, d, hashmap_replace-Distinct p idm.map sa id d)

  -- An unused ID is in the set after a call exactly when the call succeeds; the others do not move.
  pub contains-put_id :
      (idm : Idm p) (sa : Sockaddr) (id n : ℕ)
      → us.contains idm.ids id ≡ false
      → us.contains (put_id p idm sa id).0.ids n
        ≡ (if n == id then (put_id p idm sa id).1 else us.contains idm.ids n)
  unfolding put_id
  contains-put_id idm sa id n h =
      let put = us.put idm.ids id in
      ground (arith, us.contains-put idm.ids id n, us.contains-take put.0 id n, h)
