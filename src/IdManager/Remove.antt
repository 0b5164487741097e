-- ===== src/IdManager/Remove.antt =====
-- `mptcpd_idm_remove_id` of lib/id_manager.c, and remapping through `mptcpd_idm_map_id`.
use mptcpd.Common.{
  ℕ, false, none, some, ◌≡◌, ◌≢◌, inl, inr, arith, if◌then◌else◌, ◌==◌, Option-cases,
}
use mptcpd.Ell.HashMap.{same}
use mptcpd.IdManager.{Platform, Idm, idm_get_id, idm_remove_id}
use mptcpd.IdManager.Get.{get_id-Got}
use mptcpd.IdManager.Keys.{ip_keys}
use mptcpd.IdManager.Invariant.{Inv, mapped_range}
use mptcpd.IdManager.Map.{same_self}
use mptcpd.Sockaddr.{Sockaddr}

module _ (p : Platform) where
  open p use {seed, hm, us}

  -- The state after the removal of an address.
  unfoldable pub without : Idm p → Sockaddr → Idm p
  without idm sa = record {
    ids = elim (hm.lookup idm.map sa) [ none ↦ idm.ids | some id ↦ (us.take idm.ids id).0 ];
    map = (hm.remove idm.map sa).0;
  }

  -- On a valid manager `remove_id` returns the ID of the address, or 0 if it has none.
  pub remove_id_lem :
      (idm : Idm p) (sa : Sockaddr)
      → Inv p idm
      → idm_remove_id p (some idm) (some sa)
        ≡ (some (without idm sa), elim (hm.lookup idm.map sa) [ none ↦ 0 | some id ↦ id ])
  unfolding idm_remove_id without
  remove_id_lem idm sa v = elim (Option-cases (hm.lookup idm.map sa)) [
    | inl h ↦ ground (arith, h, hm.remove_value idm.map sa)
    | inr (id, h) ↦ ground (
      arith,
      h,
      hm.remove_value idm.map sa,
      mapped_range p sa id v h,
      us.take_used idm.ids id (v.used sa id h),
    )
  ]

  pub lookup-without :
      (idm : Idm p) (sa j : Sockaddr)
      → Inv p idm
      → hm.lookup (without idm sa).map j
        ≡ (if same (ip_keys seed) sa j then none else hm.lookup idm.map j)
  unfolding without
  lookup-without idm sa j v = hm.lookup-remove idm.map sa j v.distinct

  pub contains-without :
      (idm : Idm p) (sa : Sockaddr) (id n : ℕ)
      → hm.lookup idm.map sa ≡ some id
      → us.contains (without idm sa).ids n ≡ (if n == id then false else us.contains idm.ids n)
  unfolding without
  contains-without idm sa id n h = rw h (us.contains-take idm.ids id n)

  pub contains-without-none :
      (idm : Idm p) (sa : Sockaddr) (n : ℕ)
      → hm.lookup idm.map sa ≡ none
      → us.contains (without idm sa).ids n ≡ us.contains idm.ids n
  unfolding without
  contains-without-none idm sa n h = rw h

  without-Distinct :
      (idm : Idm p) (sa : Sockaddr) → hm.Distinct idm.map → hm.Distinct (without idm sa).map
  unfolding without
  without-Distinct idm sa d = hm.remove-Distinct idm.map sa d

  pub without-Inv : (idm : Idm p) (sa : Sockaddr) → Inv p idm → Inv p (without idm sa)
  without-Inv idm sa v = record {
    distinct = without-Distinct idm sa v.distinct;
    used = λ a id h. elim (Option-cases (hm.lookup idm.map sa)) [
      | inl e ↦
          ground
            (arith, contains-without-none idm sa id e, lookup-without idm sa a v, h, v.used a id)
      | inr (i, e) ↦ ground (
        arith,
        contains-without idm sa i id e,
        lookup-without idm sa a v,
        h,
        v.used a id,
        v.unique sa a id,
      )
    ];
    unique = λ a b id h k.
        ground (arith, lookup-without idm sa a v, lookup-without idm sa b v, h, k, v.unique a b id);
  }

  -- Giving an address an ID and removing it again restores every mapping and every used mark.
  pub remove_id-get_id :
      (idm idm' : Idm p) (sa : Sockaddr) (id : ℕ)
      → Inv p idm
      → hm.lookup idm.map sa ≡ none
      → idm_get_id p (some idm) (some sa) ≡ (some idm', id)
      → id ≢ 0
      → (idm_remove_id p (some idm') (some sa) ≡ (some (without idm' sa), id))
        × ((j : Sockaddr) → hm.lookup (without idm' sa).map j ≡ hm.lookup idm.map j)
        × ((n : ℕ) → us.contains (without idm' sa).ids n ≡ us.contains idm.ids n)
  remove_id-get_id idm idm' sa id v h e nz =
      let g = get_id-Got p idm idm' sa id v e nz in
      let m : hm.lookup idm'.map sa ≡ some id = ground (arith, g.mapped sa, same_self p sa) in
      (
        ground (arith, remove_id_lem idm' sa g.valid, m),
        λ j.
            ground
              (arith, lookup-without idm' sa j g.valid, g.mapped j, hm.lookup_same idm.map sa j, h),
        λ n. ground (arith, contains-without idm' sa id n m, g.marked n, g.fresh h),
      )
