-- ===== src/IdManager.antt =====
-- lib/id_manager.c: the MPTCP address ID manager. The hash map and the set of IDs are ELL's, taken
-- through the interfaces of `Ell`; the seed is the random number drawn by `mptcpd_idm_create`.
pub mod Keys
pub mod Map
pub mod Put
pub mod Invariant
pub mod Get
pub mod Remove
pub mod Run
pub mod Leak
mod Tests
use mptcpd.Common.{
  ℕ, ◌+◌, ◌%◌, Bool, true, false, ◌||◌, not, Option, none, some, ◌==◌, if◌then◌else◌,
}
use mptcpd.Ell.HashMap.{HashMap}
use mptcpd.Ell.Uintset.{Uintset}
use mptcpd.Sockaddr.{Sockaddr, is_inet}
use Keys.{ip_keys}

abbrev pub invalid_id : ℕ
invalid_id = 0

abbrev pub min_id : ℕ
min_id = 1

-- UINT8_MAX.
abbrev pub max_id : ℕ
max_id = 255

-- `L_PTR_TO_UINT` of a looked-up value: NULL is 0.
abbrev pub ptr_to_uint : Option ℕ → ℕ
ptr_to_uint none = 0
ptr_to_uint (some id) = id

-- What the manager is built on: the seed, ELL's containers, and HAVE_L_HASHMAP_REPLACE.
pub record Platform : Type 1 where
  pub seed : ℕ
  pub hm : HashMap (ip_keys seed) ℕ
  pub us : Uintset min_id max_id
  pub have_replace : Bool

-- A NULL pointer is `none`, for `idm` and for `sa`.
module _ (p : Platform) where
  open p use {hm, us, have_replace}

  -- `struct mptcpd_idm`, without the seed.
  pub record Idm : Type 0 where
    pub ids : us.Set
    pub map : hm.Map

  -- `mptcpd_idm_create`, where the hash functions can be set.
  unfoldable pub idm_create : Idm
  idm_create = record { ids = us.new_from_range; map = hm.new }

  -- `mptcpd_hashmap_replace`, with and without HAVE_L_HASHMAP_REPLACE: the map, the old value
  -- and the result.
  unfoldable pub hashmap_replace : hm.Map → Sockaddr → ℕ → hm.Map × Option ℕ × Bool
  hashmap_replace map key value =
      if have_replace
      then hm.replace map key value
      else let removed = hm.remove map key in
        let inserted = hm.insert removed.0 key value in (inserted.0, removed.1, inserted.1)

  -- `mptcpd_idm_map_id` from the first call of `l_uintset_put` on.
  unfoldable pub put_id : Idm → Sockaddr → ℕ → Idm × Bool
  unfolding hashmap_replace
  put_id idm sa id =
      let put = us.put idm.ids id in
      let replaced = hashmap_replace idm.map sa id in
      if put.1
      then (if replaced.2
          then (record { ids = put.0; map = replaced.0 }, true)
          else (record { ids = (us.take put.0 id).0; map = replaced.0 }, false))
      else (record { ids = put.0; map = idm.map }, false)

  unfoldable pub idm_map_id : Option Idm → Option Sockaddr → ℕ → Option Idm × Bool
  idm_map_id none sa id = (none, false)
  idm_map_id (some idm) none id = (some idm, false)
  idm_map_id (some idm) (some sa) id =
      if not (is_inet sa) || id == invalid_id
      then (some idm, false)
      else let r = put_id idm sa id in (some r.0, r.1)

  -- `mptcpd_idm_get_id` where no ID is mapped yet: take the smallest unused one.
  unfoldable pub new_id : Idm → Option Sockaddr → Option Idm × ℕ
  unfolding idm_map_id
  new_id idm sa =
      let id = us.find_unused_min idm.ids in
      let mapped = idm_map_id (some idm) sa (id % 256) in
      if id == invalid_id || id == max_id + 1
      then (some idm, invalid_id)
      else if not mapped.1
      then (mapped.0, invalid_id)
      else (mapped.0, id % 256)

  unfoldable pub idm_get_id : Option Idm → Option Sockaddr → Option Idm × ℕ
  idm_get_id none sa = (none, invalid_id)
  idm_get_id (some idm) none = (some idm, invalid_id)
  idm_get_id (some idm) (some sa) =
      let id = ptr_to_uint (hm.lookup idm.map sa) in
      if id == invalid_id then new_id idm (some sa) else (some idm, id % 256)

  -- `mptcpd_idm_remove_id`.
  unfoldable pub idm_remove_id : Option Idm → Option Sockaddr → Option Idm × ℕ
  idm_remove_id none sa = (none, invalid_id)
  idm_remove_id (some idm) none = (some idm, invalid_id)
  idm_remove_id (some idm) (some sa) =
      let removed = hm.remove idm.map sa in
      let id = ptr_to_uint removed.1 % 256 in
      let taken = us.take idm.ids id in
      if id == 0
      then (some (record idm { map = removed.0 }), invalid_id)
      else if not taken.1
      then (some (record { ids = taken.0; map = removed.0 }), invalid_id)
      else (some (record { ids = taken.0; map = removed.0 }), id)
