-- ===== src/IdManager/Map.antt =====
-- `mptcpd_hashmap_replace` of lib/id_manager.c, built with or without `l_hashmap_replace`.
use mptcpd.Common.{ℕ, true, none, some, ◌≡◌, arith, if◌then◌else◌}
use mptcpd.Ell.HashMap.{same}
use mptcpd.IdManager.{Platform, hashmap_replace}
use mptcpd.IdManager.Keys.{ip_keys, compare_self}
use mptcpd.Sockaddr.{Sockaddr}

module _ (p : Platform) where
  open p use {seed, hm}

  pub same_self : (k : Sockaddr) → same (ip_keys seed) k k ≡ true
  same_self k = ground (arith, compare_self k)

  removed_none : (m : hm.Map) (k : Sockaddr) → hm.Distinct m → hm.lookup (hm.remove m k).0 k ≡ none
  removed_none m k d = ground (arith, hm.lookup-remove m k k d, same_self k)

  -- Where the replacement succeeds, both builds give the map in which the key has the new value and
  -- every other key its old one, report the value before the call, and keep the keys distinct.
  pub hashmap_replace_lem :
      (m : hm.Map) (k j : Sockaddr) (v : ℕ)
      → hm.Distinct m
      → (hashmap_replace p m k v).2 ≡ true
      → (hm.lookup (hashmap_replace p m k v).0 j
          ≡ (if same (ip_keys seed) k j then some v else hm.lookup m j))
        × ((hashmap_replace p m k v).1 ≡ hm.lookup m k)
  unfolding hashmap_replace
  hashmap_replace_lem m k j v d h = ground (
    arith,
    hm.lookup-replace m k j v,
    hm.replace_old m k v,
    hm.lookup-insert (hm.remove m k).0 k j v (removed_none m k d),
    hm.lookup-remove m k j d,
    hm.remove_value m k,
  )

  pub hashmap_replace-Distinct :
      (m : hm.Map) (k : Sockaddr) (v : ℕ) → hm.Distinct m → hm.Distinct (hashmap_replace p m k v).0
  unfolding hashmap_replace
  hashmap_replace-Distinct m k v d = ground (
    arith,
    hm.replace-Distinct m k v d,
    hm.insert-Distinct (hm.remove m k).0 k v (removed_none m k d) (hm.remove-Distinct m k d),
  )
