-- ===== src/AddrAdv/Subflows.antt =====
-- The limits that the address advertiser keeps and sends.
use mptcpd.Common.{
  ℕ, ◌+◌, ◌%◌, ◌^◌, ◌<◌, leb, ◌&&◌, none, some, ℤ, pos, negsuc, if◌then◌else◌, ◌≡◌, ◌≢◌, arith, ◌∙◌,
  ap,
}
use mptcpd.AddrAdv.{
  Limits, State, limit_list, add_int, to_int, new_limits, update_limits, new_local_address,
  delete_local_address,
}
use mptcpd.IdManager.{Idm, idm_get_id, idm_remove_id}
use mptcpd.IdManager
use mptcpd.IdManager.Invariant.{Inv}
use mptcpd.IdManager.Map.{same_self}
use mptcpd.IdManager.Get.{get_id-Got, get_id_known}
use mptcpd.IdManager.Remove.{without, without-Inv, lookup-without, remove_id-get_id, remove_id_lem}
use mptcpd.PathManager.{Pm, kpm_set_limits}
use mptcpd.Sockaddr.{Sockaddr}

add_int_back : (n : ℕ) → n < 2 ^ 32 → add_int (add_int n (pos 1)) (negsuc 0) ≡ n
unfolding add_int
add_int_back n h = omega arith

add_int_twice :
    (n : ℕ) → add_int (add_int (add_int n (pos 1)) (pos 1)) (negsuc 0) ≡ (n + 1) % 2 ^ 32
unfolding add_int
add_int_twice n = omega arith

module _ (p : IdManager.Platform) (W : Type 0) (pm : Pm W) (addr_flags : ℕ) where
  -- The limits change by the delta modulo 2 ^ 32. They are sent exactly when the new limit on
  -- subflows lies in 2 to 8, and the kernel is then told this limit.
  pub update_limits_lem :
      (l : Limits) (delta : ℤ) (w : W)
      → ((update_limits p W pm addr_flags l delta w).0.subflows ≡ add_int l.subflows delta)
        × ((update_limits p W pm addr_flags l delta w).1 ≡ (
            if leb 2 (add_int l.subflows delta) && leb (add_int l.subflows delta) 8
            then (kpm_set_limits W
                (some pm)
                (some (limit_list (update_limits p W pm addr_flags l delta w).0))
                2
                w).0
            else w))
  unfolding update_limits new_limits to_int
  update_limits_lem l delta w = (ground arith, ground arith)

  new_step :
      (index : ℤ) (sa : Sockaddr) (s : State p W pm addr_flags) (idm : Idm p) (id : ℕ)
      → idm_get_id p (some s.idm) (some sa) ≡ (some idm, id)
      → id ≢ 0
      → let s' = new_local_address p W pm addr_flags index sa s in
        (s'.idm ≡ idm) × (s'.limits.subflows ≡ add_int s.limits.subflows (pos 1))
  unfolding new_local_address
  new_step index sa s idm id e nz =
      ground (arith, e, nz, (update_limits_lem s.limits (pos 1) s.world).0)

  delete_step :
      (sa : Sockaddr) (s : State p W pm addr_flags) (idm : Idm p) (id : ℕ)
      → idm_remove_id p (some s.idm) (some sa) ≡ (some idm, id)
      → id ≢ 0
      → let s' = delete_local_address p W pm addr_flags sa s in
        (s'.idm ≡ idm) × (s'.limits.subflows ≡ add_int s.limits.subflows (negsuc 0))
  unfolding delete_local_address
  delete_step sa s idm id e nz =
      ground (arith, e, nz, (update_limits_lem s.limits (negsuc 0) s.world).0)

  delete_unknown :
      (sa : Sockaddr) (s : State p W pm addr_flags) (idm : Idm p)
      → idm_remove_id p (some s.idm) (some sa) ≡ (some idm, 0)
      → let s' = delete_local_address p W pm addr_flags sa s in
        (s'.idm ≡ idm) × (s'.limits ≡ s.limits)
  unfolding delete_local_address
  delete_unknown sa s idm e = ground (arith, e)

  -- Advertising an address that has no ID, where it is given one, and withdrawing it again restores
  -- the limit on subflows, every mapping and every used mark.
  pub delete-new_local_address :
      (index : ℤ) (sa : Sockaddr) (s : State p W pm addr_flags) (idm : Idm p) (id : ℕ)
      → Inv p s.idm
      → p.hm.lookup s.idm.map sa ≡ none
      → idm_get_id p (some s.idm) (some sa) ≡ (some idm, id)
      → id ≢ 0
      → s.limits.subflows < 2 ^ 32
      → let s' =
          delete_local_address p W pm addr_flags sa
            (new_local_address p W pm addr_flags index sa s) in
        (s'.limits.subflows ≡ s.limits.subflows)
        × ((j : Sockaddr) → p.hm.lookup s'.idm.map j ≡ p.hm.lookup s.idm.map j)
        × ((n : ℕ) → p.us.contains s'.idm.ids n ≡ p.us.contains s.idm.ids n)
  delete-new_local_address index sa s idm id v h e nz small =
      let n = new_step index sa s idm id e nz in
      let (removed, lookups, marks) = remove_id-get_id p s.idm idm sa id v h e nz in
      let s' = new_local_address p W pm addr_flags index sa s in
      let d = delete_step sa s' (without p idm sa) id (rw n.0 removed) nz in
      (
        d.1 ∙ ap (λ l. add_int l (negsuc 0)) n.1 ∙ add_int_back s.limits.subflows small,
        λ j. ap (λ i. p.hm.lookup i.map j) d.0 ∙ lookups j,
        λ k. ap (λ i. p.us.contains i.ids k) d.0 ∙ marks k,
      )

  -- Withdrawing an address with no ID changes no mapping and no limit.
  delete_absent :
      (sa : Sockaddr) (s : State p W pm addr_flags) (idm : Idm p)
      → Inv p idm
      → p.hm.lookup idm.map sa ≡ none
      → s.idm ≡ idm
      → let s' = delete_local_address p W pm addr_flags sa s in
        (s'.idm ≡ without p idm sa) × (s'.limits ≡ s.limits)
  delete_absent sa s idm v h e =
      delete_unknown sa s (without p idm sa) (rw e (ground (arith, h, remove_id_lem p idm sa v)))

  -- An address on two interfaces: advertised twice and withdrawn twice, it has one ID, which the
  -- first withdrawal frees, and the mappings are as at the start, but the limit on subflows has
  -- been raised twice and lowered once.
  pub shared_address_drift :
      (first second : ℤ) (sa : Sockaddr) (s : State p W pm addr_flags) (idm : Idm p) (id : ℕ)
      → Inv p s.idm
      → p.hm.lookup s.idm.map sa ≡ none
      → idm_get_id p (some s.idm) (some sa) ≡ (some idm, id)
      → id ≢ 0
      → let add = new_local_address p W pm addr_flags in
        let delete = delete_local_address p W pm addr_flags in
        let s' = delete sa (delete sa (add second sa (add first sa s))) in
        (s'.limits.subflows ≡ (s.limits.subflows + 1) % 2 ^ 32)
        × ((j : Sockaddr) → p.hm.lookup s'.idm.map j ≡ p.hm.lookup s.idm.map j)
  shared_address_drift first second sa s idm id v h e nz =
      let g = get_id-Got p s.idm idm sa id v e nz in
      let m : p.hm.lookup idm.map sa ≡ some id = ground (arith, g.mapped sa, same_self p sa) in
      let (removed, lookups, marks) = remove_id-get_id p s.idm idm sa id v h e nz in
      let s1 = new_local_address p W pm addr_flags first sa s in
      let n1 = new_step first sa s idm id e nz in
      let n2 = new_step second sa s1 idm id (rw n1.0 (get_id_known p idm sa id g.valid m)) nz in
      let s2 = new_local_address p W pm addr_flags second sa s1 in
      let d1 = delete_step sa s2 (without p idm sa) id (rw n2.0 removed) nz in
      let s3 = delete_local_address p W pm addr_flags sa s2 in
      let left = without p idm sa in
      let d2 = delete_absent sa s3 left (without-Inv p idm sa g.valid) (lookups sa ∙ h) d1.0 in
      (
        ap (λ l. l.subflows) d2.1
            ∙ d1.1
            ∙ ap (λ l. add_int l (negsuc 0)) (n2.1 ∙ ap (λ l. add_int l (pos 1)) n1.1)
            ∙ add_int_twice s.limits.subflows,
        λ j.
            ap (λ i. p.hm.lookup i.map j) d2.0
            ∙ ground (
              arith,
              lookup-without p left sa j (without-Inv p idm sa g.valid),
              lookup-without p idm sa j g.valid,
              lookups j,
            ),
      )
